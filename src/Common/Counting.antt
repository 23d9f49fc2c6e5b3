-- ===== src/Common/Counting.antt =====
-- Sums of a weight over the first entries of a family.
use Prim.Native.Nat.{ℕ, zero, suc, ◌+◌, ◌*◌, ◌≤◌, ◌<◌}
use mathlib.Core.Path.{◌≡◌, refl, ap}
use native.Mathlib.Omega.{arith}
use native.Mathlib.Nat.{mul-suc}
use native.Mathlib.Decide.{dec_lt, ℕ_discrete}
use cs_453_concurrent_algori.Common.Family.{update}

module _ {ℓ} {A : Type ℓ} (w : A → ℕ) where
  -- The last entry first
  pub total : ℕ → (ℕ → A) → ℕ
  total zero _ = 0
  total (suc k) xs = w (xs k) + total k xs

  total_ext : (k : ℕ) (xs ys : ℕ → A) → ((j : ℕ) → j < k → xs j ≡ ys j) → total k xs ≡ total k ys
  unfolding total
  total_ext zero xs ys same = refl
  total_ext (suc k) xs ys same =
      let head : w (xs k) ≡ w (ys k) = ap w (same k (omega arith)) in
      omega (arith, head, total_ext k xs ys (λ j p. same j (omega arith)))

  -- A write moves the sum by the difference of the two weights.
  pub total-update :
      (k : ℕ) (xs : ℕ → A) (at : ℕ) (new : A)
      → at < k
      → w (xs at) + total k (update xs at new) ≡ w new + total k xs
  unfolding total
  total-update zero xs at new p = absurd (omega arith)
  total-update (suc k) xs at new p = elim (ℕ_discrete at k) [
    | no e ↦ ground (arith, total-update k xs at new (omega arith))
    | yes e ↦
        let rest : total k (update xs at new) ≡ total k xs =
          total_ext k (update xs at new) xs (λ j q. ground arith) in
        ground (arith, rest)
  ]

  pub total_zero : (n : ℕ) (f : ℕ → A) → ((j : ℕ) → j < n → w (f j) ≡ 0) → total n f ≡ 0
  unfolding total
  total_zero zero f h = refl
  total_zero (suc n) f h =
      omega (arith, h n (omega arith), total_zero n f (λ j p. h j (omega arith)))

  -- Entries of one weight, and of no more than that
  pub total_const : (c n : ℕ) (f : ℕ → A) → ((j : ℕ) → j < n → w (f j) ≡ c) → total n f ≡ c * n
  unfolding total
  total_const c zero f h = omega arith
  total_const c (suc n) f h =
      omega (arith, mul-suc c n, h n (omega arith), total_const c n f (λ j p. h j (omega arith)))

  pub total-le : (c n : ℕ) (f : ℕ → A) → ((a : A) → w a ≤ c) → total n f ≤ c * n
  unfolding total
  total-le c zero f h = omega arith
  total-le c (suc n) f h = omega (arith, mul-suc c n, h (f n), total-le c n f h)

  -- An entry with a weight shows in the sum.
  pub weight-le-total : (n : ℕ) (f : ℕ → A) (j : ℕ) → j < n → w (f j) ≤ total n f
  unfolding total
  weight-le-total zero f j h = absurd (omega arith)
  weight-le-total (suc n) f j h = elim (dec_lt j n) [
    | yes below ↦ omega (arith, weight-le-total n f j below)
    | no last ↦ let e : j ≡ n = omega arith in rw e (omega arith)
  ]

  -- A sum that is not zero has an entry with a weight.
  pub total_pos : (n : ℕ) (f : ℕ → A) → 0 < total n f → (j : ℕ) × (j < n) × (0 < w (f j))
  unfolding total
  total_pos zero f h = absurd (omega arith)
  total_pos (suc n) f h = elim (dec_lt 0 (w (f n))) [
    | yes p ↦ (n, omega arith, p)
    | no p ↦ let (j, below, q) = total_pos n f (omega arith) in (j, omega arith, q)
  ]

module _ {ℓ} {A : Type ℓ} where
  -- The sum of a weight that is one of two others added
  pub total-add :
      (u v w : A → ℕ) (g : A → A) (n : ℕ) (f : ℕ → A)
      → ((a : A) → w (g a) ≡ u a + v a)
      → total w n (λ j. g (f j)) ≡ total u n f + total v n f
  unfolding total
  total-add u v w g zero f h = refl
  total-add u v w g (suc n) f h = omega (arith, h (f n), total-add u v w g n f h)

  pub total_bound : (w : A → ℕ) (n : ℕ) (f : ℕ → A) → ((a : A) → w a ≤ 1) → total w n f ≤ n
  unfolding total
  total_bound w zero f h = omega arith
  total_bound w (suc n) f h = omega (arith, h (f n), total_bound w n f h)

  -- Four weights of which each entry has exactly one
  pub total_four :
      (u v w x : A → ℕ) (n : ℕ) (f : ℕ → A)
      → ((a : A) → u a + v a + w a + x a ≡ 1)
      → total u n f + total v n f + total w n f + total x n f ≡ n
  unfolding total
  total_four u v w x zero f h = refl
  total_four u v w x (suc n) f h = omega (arith, h (f n), total_four u v w x n f h)
