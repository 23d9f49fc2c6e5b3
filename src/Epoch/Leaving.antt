-- ===== src/Epoch/Leaving.antt =====
-- `leave_batcher` and `abort_transaction_tx` in closed form, on every branch.
use cs_453_concurrent_algori.Common.{
  ℕ, zero, suc, ◌≤◌, Bool, true, false, ◌≡◌, ◌≢◌, List, ◌++◌, done, arith,
}
use cs_453_concurrent_algori.Common.Int.{ℤ, pos, sub_one}
use cs_453_concurrent_algori.Stack.{Stack}
use cs_453_concurrent_algori.Stack.Laws.{IsStack, length}
use cs_453_concurrent_algori.Segment.{Segment}
use cs_453_concurrent_algori.Batcher.{Batcher}
use cs_453_concurrent_algori.Region.{Region}
use cs_453_concurrent_algori.Epoch.{
  commit_transcations_in_epoch, leave_batcher, abort_transaction_tx,
}
use cs_453_concurrent_algori.Epoch.Committed.{
  first_changed, committed_segments, deregistered_below, CanCommit, commit_runs,
}
use cs_453_concurrent_algori.Epoch.Aborted.{aborted, aborted_segments, CanAbort, abort_segments_run}

-- The batcher when the last transaction of an epoch has left: the next epoch has those who waited.
abbrev pub next_epoch : Batcher → Batcher
next_epoch b = record {
  tx_id_generator = 0;
  cur_epoch = suc b.cur_epoch;
  n_remaining = pos b.n_blocked;
  n_blocked = 0;
  n_in_epoch = b.n_blocked;
  lock = record { mutex = false; all_tx_left_batcher = 0 };
}

-- The batcher when another one has left
abbrev pub one_less : Batcher → Batcher
one_less b = record b { n_remaining = sub_one b.n_remaining }

abbrev pub left_last : Region → Stack → Region
left_last r st = record (committed_segments r.n_segments r st) { batcher = next_epoch r.batcher }

module _ (r : Region) (tx : ℕ) (open_lock : r.batcher.lock.mutex ≡ false) where
  pub leave_not_last :
      r.batcher.n_remaining ≢ pos 1
      → leave_batcher r tx ≡ done (record r { batcher = one_less r.batcher }, true)
  unfolding leave_batcher
  leave_not_last h = ground arith

  abbrev with_lock : Region
  with_lock = record r {
    batcher = record r.batcher { lock = record r.batcher.lock { mutex = true } };
  }

  leave_with_commit :
      (st : Stack)
      → r.batcher.n_remaining ≡ pos 1
      → commit_transcations_in_epoch with_lock ≡ done (committed_segments r.n_segments with_lock st)
      → leave_batcher r tx ≡ done (left_last r st, true)
  unfolding leave_batcher
  leave_with_commit st h e = ground (arith, e)

  pub leave_last :
      (free : List ℤ)
      → r.batcher.n_remaining ≡ pos 1
      → CanCommit r free
      → (st : Stack) × (leave_batcher r tx ≡ done (left_last r st, true))
        × IsStack st (deregistered_below r.segments r.n_segments ++ free)
  leave_last free h can =
      let (st, run, s) = commit_runs with_lock free with_lock-CanCommit in
      (st, leave_with_commit st h run, s)
    where
      with_lock-CanCommit : CanCommit with_lock free
      with_lock-CanCommit = record {
        fits = can.fits;
        allocated = can.allocated;
        stack = can.stack;
        room = can.room;
      }

-- An abort takes no segment's deregistration in addition.
length-deregistered-aborted :
    (tx n : ℕ) (f : ℕ → Segment) (k : ℕ)
    → length (deregistered_below (first_changed (aborted tx) n f) k)
      ≤ length (deregistered_below f k)
length-deregistered-aborted tx n f zero = omega arith
length-deregistered-aborted tx n f (suc k) = ground (arith, length-deregistered-aborted tx n f k)

aborted-CanCommit :
    (r : Region) (tx : ℕ) (free : List ℤ)
    → CanCommit r free
    → CanCommit (aborted_segments tx r.n_segments r) free
aborted-CanCommit r tx free can = record {
  fits = can.fits;
  allocated = λ i h. ground (arith, can.allocated i h);
  stack = can.stack;
  room =
      omega (arith, can.room, length-deregistered-aborted tx r.n_segments r.segments r.n_segments);
}

module _ (r : Region) (tx : ℕ) (can : CanAbort r) (open_lock : r.batcher.lock.mutex ≡ false) where
  abbrev freed : Region
  freed = aborted_segments tx r.n_segments r

  abort_then :
      (r' : Region) (b : Bool)
      → leave_batcher freed tx ≡ done (r', b)
      → abort_transaction_tx r tx ≡ done (r', false)
  unfolding abort_transaction_tx
  abort_then r' b e = rw (abort_segments_run tx r can) (rw e)

  pub abort_not_last :
      r.batcher.n_remaining ≢ pos 1
      → abort_transaction_tx r tx
        ≡ done (record (aborted_segments tx r.n_segments r) { batcher = one_less r.batcher }, false)
  abort_not_last h = abort_then _ true (leave_not_last freed tx open_lock h)

  pub abort_last :
      (free : List ℤ)
      → r.batcher.n_remaining ≡ pos 1
      → CanCommit r free
      → (st : Stack) × (abort_transaction_tx r tx
          ≡ done (left_last (aborted_segments tx r.n_segments r) st, false))
        × IsStack st
            (deregistered_below (aborted_segments tx r.n_segments r).segments r.n_segments ++ free)
  abort_last free h cc_r =
      let (st, run, s) = leave_last freed tx open_lock free h (aborted-CanCommit r tx free cc_r) in
      (st, abort_then _ true run, s)
