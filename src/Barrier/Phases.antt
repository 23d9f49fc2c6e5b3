-- ===== src/Barrier/Phases.antt =====
-- What holds in every state of the threads at a barrier, by the phase they are in.
use cs_453_concurrent_algori.Common.{
  ℕ, suc, ◌-◌, ◌<◌, ◌≤◌, ◌≡◌, ◌≢◌, ◌⊎◌, sym, subst, update, update_self, update_ne, arith,
  ℕ_discrete,
}
use cs_453_concurrent_algori.Common.Counting.{total, weight-le-total, total_four}
use cs_453_concurrent_algori.Barrier.{
  BarrierMode, enter, leave, Visitor, before, lets_leave, waits_leave, may_leave, lets_enter,
  waits_enter, Meeting,
}

-- Counted in `step`: a thread that has come and not gone
abbrev pub is_inside : Visitor → ℕ
is_inside (lets_leave k) = 1
is_inside (waits_leave k) = 1
is_inside (may_leave k) = 1
is_inside _ = 0

abbrev pub is_outside : Visitor → ℕ
is_outside v = 1 - is_inside v

abbrev pub is_last : Visitor → ℕ
is_last (lets_leave k) = 1
is_last _ = 0

abbrev pub is_last_out : Visitor → ℕ
is_last_out (lets_enter k) = 1
is_last_out _ = 0

-- Threads come to their call `c`, and some may not have seen yet that the one before is over.
abbrev pub Coming : ℕ → Visitor → Type 0
Coming c (before k) = k ≡ c
Coming c (lets_leave k) = k ≡ c
Coming c (waits_leave k) = k ≡ c
Coming c (may_leave k) = ⊥
Coming c (lets_enter k) = ⊥
Coming c (waits_enter k) = suc k ≡ c

-- All have come to their call `c`, and they go.
abbrev pub Going : ℕ → Visitor → Type 0
Going c (before k) = ⊥
Going c (lets_leave k) = ⊥
Going c (waits_leave k) = k ≡ c
Going c (may_leave k) = k ≡ c
Going c (lets_enter k) = k ≡ c
Going c (waits_enter k) = k ≡ c

pub data Phase (n step : ℕ) (w : ℕ → Visitor) : BarrierMode → Type 0 where
  coming :
      (c : ℕ)
      → ((j : ℕ) → j < n → Coming c (w j))
      → (((total is_last n w ≡ 0) × (step < n)) ⊎ ((total is_last n w ≡ 1) × (step ≡ n)))
      → Phase n step w enter
  going :
      (c : ℕ)
      → ((j : ℕ) → j < n → Going c (w j))
      → (((total is_last_out n w ≡ 0) × (0 < step)) ⊎ ((total is_last_out n w ≡ 1) × (step ≡ 0)))
      → Phase n step w leave

pub record Inv (n : ℕ) (m : Meeting) : Type 0 where
  pub threads : m.barrier.cardinal ≡ n
  pub counted : m.barrier.step ≡ total is_inside n m.visitor
  pub phase : Phase n m.barrier.step m.visitor m.barrier.mode

-- Where all are inside, each one is.
pub all_inside :
    (n : ℕ) (w : ℕ → Visitor) (j : ℕ) → j < n → total is_inside n w ≡ n → is_inside (w j) ≡ 1
all_inside n w j lt h =
    let parts = total_four is_inside is_outside (λ v. 0) (λ v. 0) n w (λ v. ground arith) in
    let one = weight-le-total is_outside n w j lt in
    let most : is_inside (w j) ≤ 1 = ground arith in omega (arith, parts, one, most)

-- A family that is changed at one index
pub changed_all :
    (P : Visitor → Type 0) (n : ℕ) (w : ℕ → Visitor) (i : ℕ) (to : Visitor)
    → P to
    → ((j : ℕ) → j < n → j ≢ i → P (w j))
    → (j : ℕ) → j < n
    → P (update w i to j)
changed_all P n w i to here there j lt = elim (ℕ_discrete j i) [
  | yes e ↦ subst (λ q. P (update w i to q)) (sym e) (subst P (sym (update_self w i to)) here)
  | no e ↦ subst P (sym (update_ne w i j to e)) (there j lt e)
]
