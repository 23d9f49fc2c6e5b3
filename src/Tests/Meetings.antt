-- ===== src/Tests/Meetings.antt =====
-- The theorem on the barrier, for two threads of which the first has come.
use cs_453_concurrent_algori.Common.{ℕ, ◌<◌, ◌≤◌, refl, update, arith}
use cs_453_concurrent_algori.Barrier.{
  enter, before, waits_leave, Meeting, Meets, alone, followed, comes, sync_enters,
}
use cs_453_concurrent_algori.Barrier.Safe.{passed, begun, Moving, sync_together}

abbrev one_came : Meeting
one_came = record {
  barrier = record { cardinal = 2; step = 1; mode = enter };
  visitor = update (λ i. before 0) 0 (waits_leave 0);
}

one_came-Meets : Meets 2 one_came
unfolding sync_enters
one_came-Meets = followed 0 alone (omega arith) (comes 0 refl)

sync_together_example :
    ((i j : ℕ) → i < 2 → j < 2 → passed (one_came.visitor i) ≤ begun (one_came.visitor j))
    × Moving 2 one_came
sync_together_example = sync_together 2 one_came (omega arith) one_came-Meets
