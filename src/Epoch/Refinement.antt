-- ===== src/Epoch/Refinement.antt =====
-- Commit and abort of the region implement those of the abstract words of Word/Spec.antt.
use cs_453_concurrent_algori.Common.{
  ℕ, ◌<◌, ◌++◌, ◌==◌, ◌≡◌, ◌≢◌, false, if◌then◌else◌, List, done, arith, refl,
}
use cs_453_concurrent_algori.Common.Int.{ℤ, pos}
use cs_453_concurrent_algori.Stack.Laws.{IsStack}
use cs_453_concurrent_algori.Segment.{none_tx}
use cs_453_concurrent_algori.Word.Spec.{view, spec_commit, spec_abort}
use cs_453_concurrent_algori.Region.{Region}
use cs_453_concurrent_algori.Epoch.{commit_transcations_in_epoch, abort_transaction_tx}
use cs_453_concurrent_algori.Epoch.Committed.{
  committed_segments, deregistered_below, CanCommit, commit_runs,
}
use cs_453_concurrent_algori.Epoch.Aborted.{aborted_segments, CanAbort}
use cs_453_concurrent_algori.Epoch.Leaving.{one_less, abort_not_last}

-- The end of an epoch: each word of each segment that is not deregistered gets the bytes that were
-- written to it, if any, as its committed bytes, and is free for the next epoch; the words of a
-- deregistered segment are as they were, and its index is on the stack of free ones. (The blocks of the segments exist, and the stack has room for the
-- indices that are pushed.)
pub commit_refines :
    (r : Region) (free : List ℤ)
    → CanCommit r free
    → (r' : Region) × (commit_transcations_in_epoch r ≡ done r')
      × ((i j : ℕ)
          → i < r.n_segments
          → j < (r.segments i).n_words
          → view (r'.segments i) j ≡ (
              if (r.segments i).deregistered == none_tx
              then spec_commit (view (r.segments i) j)
              else view (r.segments i) j))
      × IsStack r'.free_seg_indices (deregistered_below r.segments r.n_segments ++ free)
commit_refines r free can =
    let (st, run, s) = commit_runs r free can in
    (committed_segments r.n_segments r st, run, λ i j hi hj. ground arith, s)

-- The abort of a transaction that is not the last one of its epoch: each word that it wrote is free
-- again, with the committed bytes it had; every other word is as it was; and a segment that it
-- deregistered is not deregistered any more. (The blocks of the segments exist, and the locks are free.)
pub abort_refines :
    (r : Region) (tx : ℕ)
    → CanAbort r
    → r.batcher.lock.mutex ≡ false
    → r.batcher.n_remaining ≢ pos 1
    → (r' : Region) × (abort_transaction_tx r tx ≡ done (r', false))
      × (r'.batcher ≡ one_less r.batcher)
      × ((i j : ℕ)
          → i < r.n_segments
          → j < (r.segments i).n_words
          → view (r'.segments i) j ≡ spec_abort tx (view (r.segments i) j))
      × ((i : ℕ)
          → i < r.n_segments
          → (r'.segments i).deregistered
            ≡ (if (r.segments i).deregistered == tx then none_tx else (r.segments i).deregistered))
abort_refines r tx can open_lock h = (
  record (aborted_segments tx r.n_segments r) { batcher = one_less r.batcher },
  abort_not_last r tx can open_lock h,
  refl,
  λ i j hi hj. ground arith,
  λ i hi. ground arith,
)
