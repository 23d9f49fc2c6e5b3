-- ===== src/Check/Passed.antt =====
-- No worker finds a violation in `check`.
use cs_453_concurrent_algori.Common.{
  ℕ, suc, ◌-◌, ◌*◌, ◌<◌, ◌≤◌, ◌≡◌, ◌≢◌, ◌∙◌, refl, sym, ap, subst, true, ◌==◌, if◌then◌else◌,
  update, update_self, update_ne, arith, ℕ_discrete, dec_lt,
}
use cs_453_concurrent_algori.Common.Counting.{total_zero, total_const, total-le}
use cs_453_concurrent_algori.Bank.{wrap}
use cs_453_concurrent_algori.Check.{
  nb_tx_per_wrk, Checker, first_sync, sets, tests_set, second_sync, fetches, decreases, last_sync,
  tests_zero, violated, correct, Checking, syncs, next_round, decrease, AllBegun, CheckStep,
  behind_first, sets_counter, reads_counter, behind_second, fetches_last, counts_down, behind_last,
  tests_counter, Checks, begins, steps,
}
use cs_453_concurrent_algori.Check.Countdown.{
  remaining, remaining_most, Fine, Inv, stays, first_grows,
}
use cs_453_concurrent_algori.Check.Moves.{counter_positive, counts_down-Inv, sets-Inv}

module _ (n i : ℕ) (s : Checking) (lt : i < n) (inv : Inv n s) where
  first_is : (to : Checker) → i ≡ 0 → syncs (update s.checker i to 0) ≡ syncs to
  first_is to z =
      subst (λ j. syncs (update s.checker i to j) ≡ syncs to) z
        (ap syncs (update_self s.checker i to))

  first_same : (to : Checker) → i ≢ 0 → syncs (update s.checker i to 0) ≡ syncs (s.checker 0)
  first_same to o = ap syncs (update_ne s.checker i 0 to (λ e. o (sym e)))

  -- Worker `i` stands at `from`.
  here : (from : Checker) → s.checker i ≡ from → Fine n i s.counter (syncs (s.checker 0)) from
  here from e = subst (Fine n i s.counter (syncs (s.checker 0))) e (inv.each i lt)

  -- The first worker is in its second call or behind it, and worker `i` goes on.
  moves_on :
      (from to : Checker)
      → s.checker i ≡ from
      → syncs from ≤ syncs to
      → 2 ≤ syncs (s.checker 0)
      → remaining to ≡ remaining from
      → (2 ≤ syncs (update s.checker i to 0)
          → Fine n i s.counter (syncs (update s.checker i to 0)) to)
      → Inv n (record s { checker = update s.checker i to })
  moves_on from to e h two same fine =
      let was : syncs (s.checker i) ≡ syncs from = ap syncs e in
      let grows : syncs (s.checker i) ≤ syncs to = omega arith in
      let first = first_grows n s i to lt inv grows in
      stays n s i to lt inv grows (fine (omega (arith, first))) (same ∙ sym (ap remaining e))
        (λ k. inv.sums two)

  first_call-Inv :
      s.checker i ≡ first_sync
      → Inv n (record s { checker = update s.checker i (if i == 0 then sets else second_sync) })
  first_call-Inv e =
      let was : syncs (s.checker i) ≡ 1 = ap syncs e in
      let all : remaining (s.checker i) ≡ 100 = ap remaining e in
      elim (ℕ_discrete i 0) [
        | yes z ↦
            let now = first_is sets z in
            let to : (if i == 0 then sets else second_sync) ≡ sets = ground arith in
            subst (λ v. Inv n (record s { checker = update s.checker i v })) (sym to)
              (stays n s i sets lt inv (omega arith) (z, now) (omega arith)
                (λ h. absurd (omega (arith, now))))
        | no o ↦
            let now = first_same second_sync o in
            let to : (if i == 0 then sets else second_sync) ≡ second_sync = ground arith in
            subst (λ v. Inv n (record s { checker = update s.checker i v })) (sym to)
              (stays n s i second_sync lt inv (omega arith) tt (omega arith)
                (λ h. inv.sums (omega (arith, now))))
      ]

  set_up-Inv :
      s.checker i ≡ tests_set
      → 100 * n < 0x10000000000000000
      → Inv n (record s {
        checker =
            update s.checker i
              (if s.counter == wrap (nb_tx_per_wrk * n) then second_sync else violated);
      })
  set_up-Inv e bound =
      let (z, one, full) = here tests_set e in
      let was : syncs (s.checker i) ≡ 1 = ap syncs e in
      let all : remaining (s.checker i) ≡ 100 = ap remaining e in
      let to : (if s.counter == wrap (nb_tx_per_wrk * n) then second_sync else violated)
          ≡ second_sync =
        ground arith in
      let sum = total_const remaining 100 n s.checker (inv.waits (omega arith)) in
      subst (λ v. Inv n (record s { checker = update s.checker i v })) (sym to)
        (stays n s i second_sync lt inv (omega arith) tt (omega arith) (λ h. full ∙ sym sum))

  count_down-Inv :
      (k last : ℕ)
      → s.checker i ≡ decreases k last
      → 100 * n < 0x10000000000000000
      → Inv n (record {
        counter = (decrease last s.counter).1;
        checker =
            update s.checker i
              (if (decrease last s.counter).0 then next_round (suc k) else violated);
      })
  count_down-Inv k last e bound =
      let (a, two, small) = here (decreases k last) e in
      let (positive, low, sum) = counter_positive n i k last s lt inv e in
      let most = total-le remaining 100 n s.checker remaining_most in
      let good : decrease last s.counter ≡ (true, s.counter - 1) = ground arith in
      let grows : syncs (s.checker i) ≤ syncs (next_round (suc k)) = rw e (ground arith) in
      let first = first_grows n s i (next_round (suc k)) lt inv grows in
      subst
        (λ r. Inv n (record {
          counter = r.1;
          checker = update s.checker i (if r.0 then next_round (suc k) else violated);
        }))
        (sym good)
        (counts_down-Inv n i k last s lt inv e (next_round (suc k))
          (round_fine (s.counter - 1) (syncs (update s.checker i (next_round (suc k)) 0)) k
            (omega (arith, first)))
          (round_remaining k a) (ground arith))
    where
      round_fine : (c t k : ℕ) → 2 ≤ t → Fine n i c t (next_round (suc k))
      round_fine c t k h = elim (dec_lt (suc k) 100) [
        | yes q ↦
            let to : next_round (suc k) ≡ fetches (suc k) = ground arith in
            subst (Fine n i c t) (sym to) (q, h)
        | no q ↦
            let to : next_round (suc k) ≡ last_sync = ground arith in
            subst (Fine n i c t) (sym to) h
      ]

      round_remaining : (k : ℕ) → k < 100 → remaining (next_round (suc k)) ≡ 100 - suc k
      round_remaining k h = ground arith

  done_rounds : (v : Checker) → 3 ≤ syncs v → remaining v ≡ 0
  done_rounds first_sync h = absurd (omega arith)
  done_rounds sets h = absurd (omega arith)
  done_rounds tests_set h = absurd (omega arith)
  done_rounds second_sync h = absurd (omega arith)
  done_rounds (fetches j) h = absurd (omega arith)
  done_rounds (decreases j last) h = absurd (omega arith)
  done_rounds last_sync h = refl
  done_rounds tests_zero h = refl
  done_rounds violated h = refl
  done_rounds correct h = refl

  all_done : AllBegun n s 3 → s.counter ≡ 0
  all_done h =
      let first = h 0 (omega arith) in
      inv.sums (omega arith)
      ∙ total_zero remaining n s.checker (λ j p. done_rounds (s.checker j) (h j p))

  step-Inv : (s' : Checking) → 100 * n < 0x10000000000000000 → CheckStep n s i s' → Inv n s'
  step-Inv s' bound (behind_first e h) = first_call-Inv e
  step-Inv s' bound (sets_counter e) =
      sets-Inv n i s lt inv e (wrap (nb_tx_per_wrk * n)) (omega arith)
  step-Inv s' bound (reads_counter e) = set_up-Inv e bound
  step-Inv s' bound (behind_second e h) =
      moves_on second_sync (fetches 0) e (omega arith) (h 0 (omega arith)) refl
        (λ k. (omega arith, k))
  step-Inv s' bound (fetches_last k e) =
      let (a, two) = here (fetches k) e in
      moves_on (fetches k) (decreases k s.counter) e (omega arith) two refl
        (λ t. (a, t, omega arith))
  step-Inv s' bound (counts_down k last e) = count_down-Inv k last e bound
  step-Inv s' bound (behind_last e h) =
      let two = here last_sync e in
      elim (ℕ_discrete i 0) [
        | yes z ↦
            let to : (if i == 0 then tests_zero else correct) ≡ tests_zero = ground arith in
            subst (λ v. Inv n (record s { checker = update s.checker i v })) (sym to)
              (moves_on last_sync tests_zero e (omega arith) two refl (λ t. (t, all_done h)))
        | no o ↦
            let to : (if i == 0 then tests_zero else correct) ≡ correct = ground arith in
            subst (λ v. Inv n (record s { checker = update s.checker i v })) (sym to)
              (moves_on last_sync correct e (omega arith) two refl (λ t. t))
      ]
  step-Inv s' bound (tests_counter e) =
      let (two, zero_now) = here tests_zero e in
      let to : (if s.counter == 0 then correct else violated) ≡ correct = ground arith in
      subst (λ v. Inv n (record s { checker = update s.checker i v })) (sym to)
        (moves_on tests_zero correct e (omega arith) two refl (λ t. t))

Checks-Inv : (n old : ℕ) (s : Checking) → 100 * n < 0x10000000000000000 → Checks n old s → Inv n s
Checks-Inv n old s bound begins = record {
  each = λ j p. tt;
  sums = λ h. absurd (omega arith);
  waits = λ h j p. refl;
}
Checks-Inv n old s' bound (steps {s = s} i h lt st) =
    step-Inv n i s lt (Checks-Inv n old s bound h) s' bound st

-- If each transaction takes effect at once and the barrier holds the workers together, then whatever the
-- counter was at first and in whatever order the workers go on, none of them finds a violation; and once
-- all have begun their last call of `sync`, the counter is zero. (The workers are fewer than 2 ^ 64 / 100.)
pub check_passes :
    (n old : ℕ) (s : Checking)
    → 100 * n < 0x10000000000000000
    → Checks n old s
    → ((j : ℕ) → j < n → s.checker j ≢ violated) × (0 < n → AllBegun n s 3 → s.counter ≡ 0)
check_passes n old s bound h =
    let inv = Checks-Inv n old s bound h in
    (
      λ j p e. subst (Fine n j s.counter (syncs (s.checker 0))) e (inv.each j p),
      λ p all. all_done n 0 s p inv all,
    )
