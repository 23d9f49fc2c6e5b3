-- ===== src/Tests/Threads.antt =====
-- The theorems on threads, at two threads of which one waits.
use cs_453_concurrent_algori.Common.{ℕ, ◌<◌, ◌≡◌, ◌≢◌, refl, true, arith}
use cs_453_concurrent_algori.Common.Counting.{total}
use cs_453_concurrent_algori.Common.Int.{pos}
use cs_453_concurrent_algori.Segment.{none_tx}
use cs_453_concurrent_algori.Region.{max_num_segments}
use cs_453_concurrent_algori.System.Invariant.Counts.{active, asleep}
use cs_453_concurrent_algori.System.Safety.{
  unique_ids, id_in_range, counters_exact, waiting_not_alone,
}
use cs_453_concurrent_algori.Tests.Setup.{one_waits, two_threads}

unique_ids_example : ◌≡◌ {A = ℕ} 0 0
unique_ids_example = unique_ids 2 one_waits two_threads 0 0 0 (omega arith) (omega arith) refl refl

id_in_range_example : (0 < 2) × (0 < max_num_segments) × (0 ≢ none_tx)
id_in_range_example = id_in_range 2 one_waits two_threads (omega arith) 0 0 (omega arith) refl

counters_exact_example :
    (one_waits.region.batcher.n_remaining ≡ pos (total active 2 one_waits.pc))
    × (one_waits.region.batcher.n_blocked ≡ total asleep 2 one_waits.pc)
counters_exact_example = counters_exact 2 one_waits two_threads

waiting_not_alone_example : (j : ℕ) × (j < 2) × (0 < active (one_waits.pc j))
waiting_not_alone_example = waiting_not_alone 2 one_waits two_threads 1 true (omega arith) refl
