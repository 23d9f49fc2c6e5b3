-- ===== src/Tests/Epochs.antt =====
-- The theorems on the end of an epoch and on aborts, at concrete regions and steps.
use cs_453_concurrent_algori.Common.{
  ℕ, ◌<◌, ◌≡◌, ◌≢◌, ◌==◌, ◌++◌, if◌then◌else◌, true, false, refl, [], Outcome, done, arith, Bool,
  for_range,
}
use cs_453_concurrent_algori.Stack.Laws.{IsStack}
use cs_453_concurrent_algori.Segment.{Segment, none_tx, init_word, init_segment}
use cs_453_concurrent_algori.Word.Spec.{view, spec_commit, spec_abort, committed_bytes}
use cs_453_concurrent_algori.Region.{Region, segment_at, set_segment}
use cs_453_concurrent_algori.Word.{success_alloc, write_word}
use cs_453_concurrent_algori.Epoch.{
  commit_transcations_in_epoch, abort_transaction_tx, commit_segment, commit_word, leave_batcher,
}
use cs_453_concurrent_algori.Epoch.Leaving.{one_less}
use cs_453_concurrent_algori.Epoch.Refinement.{commit_refines, abort_refines}
use cs_453_concurrent_algori.Epoch.Committed.{deregistered_below}
use cs_453_concurrent_algori.Tm.{tm_create, tm_end}
use cs_453_concurrent_algori.System.{System, idle, writes, ends, pc_left}
use cs_453_concurrent_algori.System.Invariant.Counts.{active}
use cs_453_concurrent_algori.System.Isolation.{InTransaction, epoch_snapshot, epoch_ends_alone}
use cs_453_concurrent_algori.Tests.Setup.{raw_region, region, one_waits, two_threads}
use cs_453_concurrent_algori.Tests.Blocks.{
  two_words, source, written_words, empty_stack, region_with, written-CanCommit, written-CanAbort,
}

abbrev r0 : Region
r0 = region_with written_words empty_stack

commit_refines_example :
    (r' : Region) × (commit_transcations_in_epoch r0 ≡ done r')
    × ((i j : ℕ)
        → i < r0.n_segments
        → j < (r0.segments i).n_words
        → view (r'.segments i) j ≡ (
            if (r0.segments i).deregistered == none_tx
            then spec_commit (view (r0.segments i) j)
            else view (r0.segments i) j))
    × IsStack r'.free_seg_indices (deregistered_below r0.segments r0.n_segments ++ [])
commit_refines_example = commit_refines r0 [] written-CanCommit

abort_refines_example :
    (r' : Region) × (abort_transaction_tx r0 3 ≡ done (r', false))
    × (r'.batcher ≡ one_less r0.batcher)
    × ((i j : ℕ)
        → i < r0.n_segments
        → j < (r0.segments i).n_words
        → view (r'.segments i) j ≡ spec_abort 3 (view (r0.segments i) j))
    × ((i : ℕ)
        → i < r0.n_segments
        → (r'.segments i).deregistered
          ≡ (if (r0.segments i).deregistered == 3 then none_tx else (r0.segments i).deregistered))
abort_refines_example = abort_refines r0 3 written-CanAbort refl (ground arith)

abbrev writer_segment : Segment
writer_segment = one_waits.region.segments 0

segment_of : Outcome (Segment × ℕ) → Segment
segment_of (done (s, status)) = s
segment_of _ = two_words

unfoldable segment_written : Segment
segment_written = segment_of (write_word writer_segment 0 1 source 0)

word_written : write_word writer_segment 0 1 source 0 ≡ done (segment_written, success_alloc)
unfolding segment_written segment_of write_word tm_create init_segment init_word for_range region
word_written = refl

segment_found : segment_at one_waits.region 0 ≡ done writer_segment
unfolding segment_at tm_create init_segment init_word for_range region
segment_found = refl

-- Thread 0 writes a word.
abbrev after_write : System
after_write = record { region = set_segment one_waits.region 0 segment_written; pc = one_waits.pc }

epoch_snapshot_example :
    committed_bytes (after_write.region.segments 0) 1
    ≡ committed_bytes (one_waits.region.segments 0) 1
epoch_snapshot_example =
    epoch_snapshot 2 one_waits after_write two_threads
      (writes 0 0 1 source 0 (omega arith) refl segment_found word_written) refl refl 0 1

region_of : Outcome (Region × Bool) → Region
region_of (done (r, status)) = r
region_of _ = raw_region

unfoldable after_end : Region
after_end = region_of (tm_end one_waits.region 0)

ended : tm_end one_waits.region 0 ≡ done (after_end, true)
unfolding after_end region_of tm_end leave_batcher commit_transcations_in_epoch commit_segment
    commit_word segment_at tm_create init_segment init_word for_range region
ended = refl

epoch_one : after_end.batcher.cur_epoch ≡ 1
unfolding after_end region_of tm_end leave_batcher commit_transcations_in_epoch commit_segment
    commit_word segment_at tm_create init_segment init_word for_range region
epoch_one = refl

-- Thread 0 ends its transaction, and with it the epoch.
abbrev epoch_over : System
epoch_over = record { region = after_end; pc = pc_left one_waits.region.batcher one_waits.pc 0 }

epoch_ends_alone_example :
    (0 < 2)
    × InTransaction (one_waits.pc 0)
    × (epoch_over.pc 0 ≡ idle)
    × ((j : ℕ) → j < 2 → j ≢ 0 → active (one_waits.pc j) ≡ 0)
epoch_ends_alone_example =
    epoch_ends_alone 2 one_waits epoch_over two_threads (ends 0 (omega arith) refl ended)
      (omega (arith, epoch_one))
