-- ===== src/Barrier.antt =====
-- grading/common.hpp, class Barrier: threads wait for each other in `sync`, which they call again and again.
-- A step is one atomic operation; a round of a spinning loop that goes on spinning changes nothing.
pub mod Phases
pub mod Steps
pub mod Safe
use cs_453_concurrent_algori.Common.{
  ℕ, suc, ◌-◌, ◌<◌, ◌≡◌, Bool, true, false, ◌==◌, if◌then◌else◌, update,
}

pub data BarrierMode : Type 0 where
  enter : BarrierMode
  leave : BarrierMode

pub record Barrier : Type 0 where
  pub cardinal : ℕ
  pub step : ℕ
  pub mode : BarrierMode

abbrev pub barrier_init : ℕ → Barrier
barrier_init cardinal = record { cardinal = cardinal; step = 0; mode = enter }

-- `fetch_add`, and whether it was the last thread to come
unfoldable pub sync_enters : Barrier → Barrier × Bool
sync_enters b = (record b { step = suc b.step }, suc b.step == b.cardinal)

abbrev pub set_leave : Barrier → Barrier
set_leave b = record b { mode = leave }

-- `fetch_sub`, and whether it was the last thread to go
unfoldable pub sync_leaves : Barrier → Barrier × Bool
sync_leaves b = (record b { step = b.step - 1 }, b.step - 1 == 0)

abbrev pub set_enter : Barrier → Barrier
set_enter b = record b { mode = enter }

-- Where a thread stands in its call of `sync` with that number: before it, before the store that lets the
-- others leave, in the first loop, behind it, before the store that lets them enter, in the second loop.
pub data Visitor : Type 0 where
  before : ℕ → Visitor
  lets_leave : ℕ → Visitor
  waits_leave : ℕ → Visitor
  may_leave : ℕ → Visitor
  lets_enter : ℕ → Visitor
  waits_enter : ℕ → Visitor

pub record Meeting : Type 0 where
  pub barrier : Barrier
  pub visitor : ℕ → Visitor

module _ (n : ℕ) where
  -- `sync` of thread `i`
  pub data SyncStep (m : Meeting) (i : ℕ) : Meeting → Type 0 where
    comes :
        (k : ℕ)
        → m.visitor i ≡ before k
        → SyncStep m i (record m {
          barrier = (sync_enters m.barrier).0;
          visitor =
              update m.visitor i
                (if (sync_enters m.barrier).1 then lets_leave k else waits_leave k);
        })
    stores_leave :
        (k : ℕ)
        → m.visitor i ≡ lets_leave k
        → SyncStep m i
            (record m { barrier = set_leave m.barrier; visitor = update m.visitor i (may_leave k) })
    sees_leave :
        (k : ℕ)
        → m.visitor i ≡ waits_leave k
        → m.barrier.mode ≡ leave
        → SyncStep m i (record m { visitor = update m.visitor i (may_leave k) })
    goes :
        (k : ℕ)
        → m.visitor i ≡ may_leave k
        → SyncStep m i (record m {
          barrier = (sync_leaves m.barrier).0;
          visitor =
              update m.visitor i
                (if (sync_leaves m.barrier).1 then lets_enter k else waits_enter k);
        })
    stores_enter :
        (k : ℕ)
        → m.visitor i ≡ lets_enter k
        → SyncStep m i (record m {
          barrier = set_enter m.barrier;
          visitor = update m.visitor i (before (suc k));
        })
    sees_enter :
        (k : ℕ)
        → m.visitor i ≡ waits_enter k
        → m.barrier.mode ≡ enter
        → SyncStep m i (record m { visitor = update m.visitor i (before (suc k)) })

  -- As many threads as the barrier is made for
  pub data Meets : Meeting → Type 0 where
    alone : Meets (record { barrier = barrier_init n; visitor = λ i. before 0 })
    followed : {m m' : Meeting} (i : ℕ) → Meets m → i < n → SyncStep m i m' → Meets m'
