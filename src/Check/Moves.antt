-- ===== src/Check/Moves.antt =====
-- The workers in `check`: the steps that change the counter.
use cs_453_concurrent_algori.Common.{
  ℕ, suc, ◌-◌, ◌*◌, ◌<◌, ◌≤◌, ◌≡◌, ◌∙◌, sym, ap, subst, update, update_self, update_ne, arith,
  ℕ_discrete,
}
use cs_453_concurrent_algori.Common.Counting.{total, total-update, weight-le-total}
use cs_453_concurrent_algori.Check.{Checker, sets, tests_set, decreases, Checking, syncs}
use cs_453_concurrent_algori.Check.Countdown.{
  remaining, Fine, Fine-down, Fine-set, Inv, first_grows, others-Fine,
}

module _ (n i k last : ℕ) (s : Checking) (lt : i < n) (inv : Inv n s)
    (e : s.checker i ≡ decreases k last) where
  at_i : (k < 100) × (2 ≤ syncs (s.checker 0)) × (s.counter ≤ last)
  at_i = subst (Fine n i s.counter (syncs (s.checker 0))) e (inv.each i lt)

  pub counter_positive :
      (0 < s.counter) × (s.counter ≤ last) × (s.counter ≡ total remaining n s.checker)
  counter_positive =
      let (a, b, c) = at_i in
      let sum = inv.sums b in
      let here = weight-le-total remaining n s.checker i lt in
      let mine : remaining (s.checker i) ≡ 100 - k = ap remaining e in (omega arith, c, sum)

  pub counts_down-Inv :
      (to : Checker)
      → Fine n i (s.counter - 1) (syncs (update s.checker i to 0)) to
      → remaining to ≡ 100 - suc k
      → 2 ≤ syncs to
      → Inv n (record { counter = s.counter - 1; checker = update s.checker i to })
  counts_down-Inv to fine less calls =
      let (a, b, c) = at_i in
      let (positive, small, sum) = counter_positive in
      let w' = update s.checker i to in
      let t = total-update remaining n s.checker i to lt in
      let mine : remaining (s.checker i) ≡ 100 - k = ap remaining e in
      let two : syncs (s.checker i) ≡ 2 = ap syncs e in
      let grows : syncs (s.checker i) ≤ syncs to = omega arith in
      let first = first_grows n s i to lt inv grows in
      record {
        each = λ j p. elim (ℕ_discrete j i) [
          | yes q ↦
              subst (λ r. Fine n r (s.counter - 1) (syncs (w' 0)) (w' r)) (sym q)
                (subst (Fine n i (s.counter - 1) (syncs (w' 0))) (sym (update_self s.checker i to))
                  fine)
          | no o ↦
              subst (Fine n j (s.counter - 1) (syncs (w' 0))) (sym (update_ne s.checker i j to o)) (
                Fine-down n j s.counter (syncs (w' 0)) (s.checker j) positive (omega (arith, first))
                  (others-Fine n s i to lt inv grows j p o))
        ];
        sums = λ h. omega (arith, t, mine, less, sum);
        waits = λ h j p. absurd (omega (arith, first));
      }

module _ (n i : ℕ) (s : Checking) (lt : i < n) (inv : Inv n s) (e : s.checker i ≡ sets) where
  pub sets-Inv :
      (c : ℕ) → c ≡ 100 * n → Inv n (record { counter = c; checker = update s.checker i tests_set })
  sets-Inv c full =
      let (z, one) = subst (Fine n i s.counter (syncs (s.checker 0))) e (inv.each i lt) in
      let w' = update s.checker i tests_set in
      let at_0 : w' 0 ≡ tests_set =
        subst (λ j. w' j ≡ tests_set) z (update_self s.checker i tests_set) in
      let one' : syncs (w' 0) ≡ 1 = ap syncs at_0 in
      record {
        each = λ j p. elim (ℕ_discrete j i) [
          | yes q ↦
              subst (λ r. Fine n r c (syncs (w' 0)) (w' r)) (sym q)
                (subst (Fine n i c (syncs (w' 0))) (sym (update_self s.checker i tests_set))
                  (z, one', full))
          | no o ↦ subst (Fine n j c (syncs (w' 0))) (sym (update_ne s.checker i j tests_set o)) (
              subst (λ q. Fine n j c q (s.checker j)) (sym one')
                (Fine-set n j s.counter c (s.checker j) (λ q. o (q ∙ sym z))
                  (subst (λ q. Fine n j s.counter q (s.checker j)) one (inv.each j p))))
        ];
        sums = λ h. absurd (omega arith);
        waits = λ h j p. elim (ℕ_discrete j i) [
          | yes q ↦
              subst (λ r. remaining (w' r) ≡ 100) (sym q)
                (ap remaining (update_self s.checker i tests_set))
          | no o ↦ ap remaining (update_ne s.checker i j tests_set o) ∙ inv.waits (omega arith) j p
        ];
      }
