-- ===== src/Epoch.antt =====
-- 275085/batcher.c, the end of a transaction and of an epoch, and the abort of 275085/tm.c.
pub mod Committed
pub mod Aborted
pub mod Leaving
pub mod Refinement
use cs_453_concurrent_algori.Common.{
  ℕ, Bool, true, false, ◌&&◌, not, ◌==◌, if◌then◌else◌, Outcome, done, ◌>>=◌, ◌>>◌, defined_if,
  for_range,
}
use cs_453_concurrent_algori.Common.Int.{pos, is_pos, sub_one}
use cs_453_concurrent_algori.Lock.{lock_acquire, lock_release, lock_wake_up}
use cs_453_concurrent_algori.Stack.{push}
use cs_453_concurrent_algori.Segment.{Segment, none_tx}
use cs_453_concurrent_algori.Word.{word_exists, set_control, acquire_word, release_word}
use cs_453_concurrent_algori.Batcher.{Batcher, prepare_batcher_for_next_epoch}
use cs_453_concurrent_algori.Region.{Region, segment_at, set_segment}

-- The inner loop of `commit_transcations_in_epoch`
unfoldable pub commit_word : ℕ → Segment → Outcome Segment
commit_word j seg =
    let c = seg.control j in
    defined_if (word_exists seg j)
    >> done (
        set_control seg j (record {
          word_is_ro = if c.word_has_been_written then not c.word_is_ro else c.word_is_ro;
          access_set = none_tx;
          word_has_been_written = false;
        }))

-- The outer loop
unfoldable pub commit_segment : ℕ → Region → Outcome Region
unfolding segment_at
commit_segment i r = segment_at r i >>= λ seg.
    (if not (seg.deregistered == none_tx)
      then (push r.free_seg_indices (pos i) >>= λ (st, _).
          done (record r { free_seg_indices = st }))
      else (for_range seg.n_words 0 commit_word seg >>= λ seg'. done (set_segment r i seg')))

unfoldable pub commit_transcations_in_epoch : Region → Outcome Region
commit_transcations_in_epoch r = for_range r.n_segments 0 commit_segment r

-- The branch of `leave_batcher` for the last transaction of an epoch, with the lock held
unfoldable pub end_epoch : Region → Outcome (Region × Bool)
unfolding lock_release lock_wake_up prepare_batcher_for_next_epoch
end_epoch r = commit_transcations_in_epoch r >>= λ r1.
    (let b = prepare_batcher_for_next_epoch r1.batcher in
      lock_release (lock_wake_up b.lock) >>= λ l.
      done (record r1 { batcher = record b { lock = l } }, true))

-- The region behind the call and its result
unfoldable pub leave_batcher : Region → ℕ → Outcome (Region × Bool)
unfolding lock_acquire lock_release end_epoch
leave_batcher r tx = lock_acquire r.batcher.lock >>= λ l.
    (let r1 = record r { batcher = record r.batcher { lock = l } } in
      if is_pos r1.batcher.n_remaining 1
      then end_epoch r1
      else (lock_release r1.batcher.lock >>= λ l1. done (
        record r1 {
          batcher = record r1.batcher { n_remaining = sub_one r1.batcher.n_remaining; lock = l1 };
        },
        true,
      )))

-- The inner loop of `abort_transaction_tx`
unfoldable pub abort_word : ℕ → ℕ → Segment → Outcome Segment
unfolding acquire_word release_word
abort_word tx j seg =
    let c = seg.control j in
    defined_if (word_exists seg j)
    >> (if c.access_set == tx && c.word_has_been_written
        then (acquire_word seg j >>= λ seg1.
            release_word
              (set_control seg1 j
                (record c { access_set = none_tx; word_has_been_written = false }))
              j)
        else done seg)

-- The outer loop
unfoldable pub abort_segment : ℕ → ℕ → Region → Outcome Region
unfolding segment_at lock_acquire lock_release
abort_segment tx i r = segment_at r i >>= λ seg.
    for_range seg.n_words 0 (abort_word tx) seg >>= λ seg1. lock_acquire r.global_lock >>= λ l.
    (let seg2 = if seg1.deregistered == tx then record seg1 { deregistered = none_tx } else seg1 in
      lock_release l >>= λ l2. done (record (set_segment r i seg2) { global_lock = l2 }))

unfoldable pub abort_transaction_tx : Region → ℕ → Outcome (Region × Bool)
abort_transaction_tx r tx = for_range r.n_segments 0 (abort_segment tx) r >>= λ r1.
    leave_batcher r1 tx >>= λ (r2, _). done (r2, false)
