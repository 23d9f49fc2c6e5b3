-- ===== src/Common/Loops.antt =====
-- Counted loops: `for (i = start; i < start + rounds; i++) body`.
use Prim.Native.Nat.{ℕ, zero, suc, ◌+◌, ◌<◌}
use mathlib.Core.Path.{◌≡◌, refl, subst}
use native.Mathlib.Omega.{arith}
use cs_453_concurrent_algori.Common.Effects.{Outcome, done, ◌>>=◌, >>=-eq-done, done-injective}

unfoldable pub for_range {ℓ} : {S : Type ℓ} → ℕ → ℕ → (ℕ → S → Outcome S) → S → Outcome S
for_range zero i body s = done s
for_range (suc n) i body s = body i s >>= λ s'. for_range n (suc i) body s'

-- An invariant that each round keeps, with the round returning, holds behind the loop, which
-- returns.
pub for_range_inv {ℓ κ} :
    {S : Type ℓ} (P : ℕ → S → Type κ) (body : ℕ → S → Outcome S) (n i j : ℕ) (s : S)
    → i + n ≡ j
    → ((k : ℕ) (t : S) → k < j → P k t → (t' : S) × (body k t ≡ done t') × P (suc k) t')
    → P i s
    → (s' : S) × (for_range n i body s ≡ done s') × P j s'
unfolding for_range
for_range_inv P body zero i j s e keep p = let e' : i ≡ j = omega arith in (s, refl, rw (← e') p)
for_range_inv P body (suc n) i j s e keep p =
    let (t, run, q) = keep i s (omega arith) p in
    let (s', rest, r) = for_range_inv P body n (suc i) j t (omega arith) keep q in
    (s', rw run rest, r)

-- Where the state before each round is known, so is the state behind the loop.
pub for_range_exact {ℓ} :
    {S : Type ℓ} (at : ℕ → S) (body : ℕ → S → Outcome S) (n i j : ℕ)
    → i + n ≡ j
    → ((k : ℕ) → k < j → body k (at k) ≡ done (at (suc k)))
    → for_range n i body (at i) ≡ done (at j)
unfolding for_range
for_range_exact at body zero i j e keep = let e' : i ≡ j = omega arith in rw e'
for_range_exact at body (suc n) i j e keep =
    rw (keep i (omega arith)) (for_range_exact at body n (suc i) j (omega arith) keep)

-- What each round that returns keeps, a loop that returns keeps.
pub for_range_keeps {ℓ κ} :
    {S : Type ℓ} (R : S → S → Type κ) (body : ℕ → S → Outcome S)
    → ((s : S) → R s s)
    → ((s t u : S) → R s t → R t u → R s u)
    → ((k : ℕ) (s t : S) → body k s ≡ done t → R s t)
    → (n i : ℕ) (s t : S) → for_range n i body s ≡ done t
    → R s t
unfolding for_range
for_range_keeps R body here join keep zero i s t e = subst (R s) (done-injective e) (here s)
for_range_keeps R body here join keep (suc n) i s t e =
    let (u, run, rest) = >>=-eq-done (body i s) (λ v. for_range n (suc i) body v) e in
    join s u t (keep i s u run) (for_range_keeps R body here join keep n (suc i) u t rest)
