-- ===== src/Check/Countdown.antt =====
-- What holds in every state of the workers in `check`.
use cs_453_concurrent_algori.Common.{
  ℕ, ◌-◌, ◌*◌, ◌<◌, ◌≤◌, ◌≡◌, ◌≢◌, ◌∙◌, sym, ap, subst, update, update_self, update_ne, arith,
  ℕ_discrete,
}
use cs_453_concurrent_algori.Common.Counting.{total, total-update}
use cs_453_concurrent_algori.Check.{
  Checker, first_sync, sets, tests_set, second_sync, fetches, decreases, last_sync, tests_zero,
  violated, correct, Checking, syncs,
}

-- The rounds of the loop that a worker has before it
abbrev pub remaining : Checker → ℕ
remaining first_sync = 100
remaining sets = 100
remaining tests_set = 100
remaining second_sync = 100
remaining (fetches i) = 100 - i
remaining (decreases i last) = 100 - i
remaining last_sync = 0
remaining tests_zero = 0
remaining violated = 0
remaining correct = 0

-- What holds of worker `j` when the counter is `c` and the first worker has begun `s` calls of `sync`.
abbrev pub Fine : ℕ → ℕ → ℕ → ℕ → Checker → Type 0
Fine n j c s first_sync = Unit
Fine n j c s sets = (j ≡ 0) × (s ≡ 1)
Fine n j c s tests_set = (j ≡ 0) × (s ≡ 1) × (c ≡ 100 * n)
Fine n j c s second_sync = Unit
Fine n j c s (fetches i) = (i < 100) × (2 ≤ s)
Fine n j c s (decreases i last) = (i < 100) × (2 ≤ s) × (c ≤ last)
Fine n j c s last_sync = 2 ≤ s
Fine n j c s tests_zero = (2 ≤ s) × (c ≡ 0)
Fine n j c s violated = ⊥
Fine n j c s correct = 2 ≤ s

-- Another worker than the first, when the first one goes on
pub Fine-later : (n j c s s' : ℕ) (v : Checker) → j ≢ 0 → s ≤ s' → Fine n j c s v → Fine n j c s' v
Fine-later n j c s s' first_sync o h f = tt
Fine-later n j c s s' sets o h (z, e) = absurd (o z)
Fine-later n j c s s' tests_set o h (z, e, k) = absurd (o z)
Fine-later n j c s s' second_sync o h f = tt
Fine-later n j c s s' (fetches i) o h (a, b) = (a, omega arith)
Fine-later n j c s s' (decreases i last) o h (a, b, d) = (a, omega arith, d)
Fine-later n j c s s' last_sync o h f = omega arith
Fine-later n j c s s' tests_zero o h (a, b) = (omega arith, b)
Fine-later n j c s s' violated o h f = f
Fine-later n j c s s' correct o h f = omega arith

-- When a worker counts down
pub Fine-down : (n j c s : ℕ) (v : Checker) → 0 < c → 2 ≤ s → Fine n j c s v → Fine n j (c - 1) s v
Fine-down n j c s first_sync o h f = tt
Fine-down n j c s sets o h f = f
Fine-down n j c s tests_set o h (z, e, k) = absurd (omega arith)
Fine-down n j c s second_sync o h f = tt
Fine-down n j c s (fetches i) o h f = f
Fine-down n j c s (decreases i last) o h (a, b, d) = (a, b, omega arith)
Fine-down n j c s last_sync o h f = f
Fine-down n j c s tests_zero o h (a, b) = absurd (omega arith)
Fine-down n j c s violated o h f = f
Fine-down n j c s correct o h f = f

-- When the counter is set up
pub Fine-set : (n j c c' : ℕ) (v : Checker) → j ≢ 0 → Fine n j c 1 v → Fine n j c' 1 v
Fine-set n j c c' first_sync o f = tt
Fine-set n j c c' sets o f = f
Fine-set n j c c' tests_set o (z, e, k) = absurd (o z)
Fine-set n j c c' second_sync o f = tt
Fine-set n j c c' (fetches i) o f = f
Fine-set n j c c' (decreases i last) o (a, b, d) = absurd (omega arith)
Fine-set n j c c' last_sync o f = f
Fine-set n j c c' tests_zero o (a, b) = absurd (omega arith)
Fine-set n j c c' violated o f = f
Fine-set n j c c' correct o f = f

-- Once the first worker has begun its second call, the counter is the sum of the rounds to come.
pub record Inv (n : ℕ) (s : Checking) : Type 0 where
  pub each : (j : ℕ) → j < n → Fine n j s.counter (syncs (s.checker 0)) (s.checker j)
  pub sums : 2 ≤ syncs (s.checker 0) → s.counter ≡ total remaining n s.checker
  pub waits : syncs (s.checker 0) ≤ 1 → (j : ℕ) → j < n → remaining (s.checker j) ≡ 100

-- A worker moves to `to`, the counter stays, and the first worker's calls do not get fewer.
module _ (n : ℕ) (s : Checking) (i : ℕ) (to : Checker) (lt : i < n) (inv : Inv n s)
    (grows : syncs (s.checker i) ≤ syncs to) where
  abbrev w' : ℕ → Checker
  w' = update s.checker i to

  pub first_grows : syncs (s.checker 0) ≤ syncs (w' 0)
  first_grows = elim (ℕ_discrete 0 i) [
    | yes e ↦
        let here : syncs (w' 0) ≡ syncs to =
          subst (λ j. syncs (w' j) ≡ syncs to) (sym e) (ap syncs (update_self s.checker i to)) in
        let was : syncs (s.checker 0) ≡ syncs (s.checker i) = ap (λ j. syncs (s.checker j)) e in
        omega arith
    | no o ↦
        let same : syncs (w' 0) ≡ syncs (s.checker 0) = ap syncs (update_ne s.checker i 0 to o) in
        omega arith
  ]

  pub others-Fine : (j : ℕ) → j < n → j ≢ i → Fine n j s.counter (syncs (w' 0)) (s.checker j)
  others-Fine j p o = elim (ℕ_discrete j 0) [
    | yes z ↦
        let same : syncs (w' 0) ≡ syncs (s.checker 0) =
          ap syncs (update_ne s.checker i 0 to (λ e. o (z ∙ e))) in
        subst (λ q. Fine n j s.counter q (s.checker j)) (sym same) (inv.each j p)
    | no z ↦
        Fine-later n j s.counter (syncs (s.checker 0)) (syncs (w' 0)) (s.checker j) z first_grows
          (inv.each j p)
  ]

  pub stays :
      Fine n i s.counter (syncs (w' 0)) to
      → remaining to ≡ remaining (s.checker i)
      → (2 ≤ syncs (w' 0) → s.counter ≡ total remaining n s.checker)
      → Inv n (record s { checker = w' })
  stays fine same sum = record {
    each = λ j p. elim (ℕ_discrete j i) [
      | yes e ↦
          subst (λ q. Fine n q s.counter (syncs (w' 0)) (w' q)) (sym e)
            (subst (Fine n i s.counter (syncs (w' 0))) (sym (update_self s.checker i to)) fine)
      | no o ↦
          subst (Fine n j s.counter (syncs (w' 0))) (sym (update_ne s.checker i j to o))
            (others-Fine j p o)
    ];
    sums = λ h.
        let t = total-update remaining n s.checker i to lt in
        let old = sum h in omega (arith, t, same, old);
    waits = λ h j p. elim (ℕ_discrete j i) [
      | yes e ↦
          let old = inv.waits (omega (arith, first_grows)) i lt in
          let now : remaining (w' j) ≡ remaining to =
            subst (λ q. remaining (w' q) ≡ remaining to) (sym e)
              (ap remaining (update_self s.checker i to)) in
          omega (arith, old, now, same)
      | no o ↦
          let old = inv.waits (omega (arith, first_grows)) j p in
          let now : remaining (w' j) ≡ remaining (s.checker j) =
            ap remaining (update_ne s.checker i j to o) in
          omega (arith, old, now)
    ];
  }

pub remaining_most : (v : Checker) → remaining v ≤ 100
remaining_most first_sync = omega arith
remaining_most sets = omega arith
remaining_most tests_set = omega arith
remaining_most second_sync = omega arith
remaining_most (fetches i) = omega arith
remaining_most (decreases i last) = omega arith
remaining_most last_sync = omega arith
remaining_most tests_zero = omega arith
remaining_most violated = omega arith
remaining_most correct = omega arith
