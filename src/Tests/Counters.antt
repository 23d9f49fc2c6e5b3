-- ===== src/Tests/Counters.antt =====
-- The theorem on `check`, for a single worker that has set the counter up.
use cs_453_concurrent_algori.Common.{ℕ, ◌<◌, ◌≡◌, ◌≢◌, refl, update, arith}
use cs_453_concurrent_algori.Check.{
  first_sync, sets, tests_set, violated, Checking, AllBegun, Checks, begins, steps, behind_first,
  sets_counter,
}
use cs_453_concurrent_algori.Check.Passed.{check_passes}

abbrev counter_set : Checking
counter_set = record {
  counter = 100;
  checker = update (update (λ i. first_sync) 0 sets) 0 tests_set;
}

counter_set-Checks : Checks 1 5 counter_set
counter_set-Checks =
    steps 0 (steps 0 begins (omega arith) (behind_first refl (λ j p. omega arith))) (omega arith)
      (sets_counter refl)

check_passes_example :
    ((j : ℕ) → j < 1 → counter_set.checker j ≢ violated)
    × (0 < 1 → AllBegun 1 counter_set 3 → counter_set.counter ≡ 0)
check_passes_example = check_passes 1 5 counter_set (omega arith) counter_set-Checks
