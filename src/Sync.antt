-- ===== src/Sync.antt =====
-- grading/grading.cpp, class Sync, and the latch of grading/common.hpp: a master starts the workers of a
-- run together and waits until the last of them is through. A step is one call, or one round of a loop
-- that spins; the atomic operations of the latest worker of a phase are one step. The clock is left out.
pub mod Phases
pub mod Arriving
pub mod Finishing
pub mod Outcome
use cs_453_concurrent_algori.Common.{
  ℕ, suc, ◌<◌, ◌≡◌, ◌≢◌, Bool, true, false, ◌==◌, if◌then◌else◌, update, Option, none, some,
}

pub data Status : Type 0 where
  wait : Status
  run : Status
  abort : Status
  done : Status
  fail : Status
  quit : Status

-- An error message is a number. `raised` is the state of the latch.
pub record Sync : Type 0 where
  pub nbworkers : ℕ
  pub nbready : ℕ
  pub status : Status
  pub errmsg : Option ℕ
  pub raised : Bool

abbrev pub sync_init : ℕ → Sync
sync_init nbworkers = record {
  nbworkers = nbworkers;
  nbready = 0;
  status = done;
  errmsg = none;
  raised = false;
}

unfoldable pub master_notify : Sync → Sync
master_notify s = record s { status = wait }

unfoldable pub master_join : Sync → Sync
master_join s = record s { status = quit }

-- What `master_wait` gives behind a latch that is raised
pub data Waited : Type 0 where
  success : Waited
  failure : Option ℕ → Waited
  unreachable : Waited

abbrev pub waited : Status → Option ℕ → Waited
waited done e = success
waited fail e = failure e
waited wait e = unreachable
waited run e = unreachable
waited abort e = unreachable
waited quit e = unreachable

-- The latch is reset. `none` where it is not raised, and the master goes on waiting.
unfoldable pub master_wait : Sync → Option (Sync × Waited)
master_wait s =
    if s.raised then some (record s { raised = false }, waited s.status s.errmsg) else none

-- A worker's part of `worker_wait` once it saw `wait`, and whether it is the latest one.
unfoldable pub worker_arrives : Sync → Sync × Bool
worker_arrives s =
    if suc s.nbready == s.nbworkers
    then (record s { nbready = 0; status = run }, true)
    else (record s { nbready = suc s.nbready }, false)

-- What ends the second loop of `worker_wait`
abbrev pub started : Status → Bool
started run = true
started abort = true
started wait = false
started done = false
started fail = false
started quit = false

abbrev pub final_status : Status → Status
final_status abort = fail
final_status wait = done
final_status run = done
final_status done = done
final_status fail = done
final_status quit = done

abbrev pub report : Option ℕ → Sync → Sync
report none s = s
report (some e) s = record s { errmsg = some e; status = abort }

unfoldable pub worker_notify : Option ℕ → Sync → Sync
worker_notify error s =
    let s1 = report error s in
    if suc s1.nbready == s1.nbworkers
    then record s1 { nbready = 0; status = final_status s1.status; raised = true }
    else record s1 { nbready = suc s1.nbready }

-- Where the master stands: before the next run, in `master_wait`, or behind `master_join`.
pub data Master : Type 0 where
  ready : Master
  awaiting : Master
  joined : Master

-- Where a worker stands: in the first loop of `worker_wait`, in the second, in a run, or behind a
-- `worker_wait` that returned false.
pub data Worker : Type 0 where
  spins : Worker
  counted : Worker
  works : Worker
  left : Worker

pub record Grader : Type 0 where
  pub sync : Sync
  pub master : Master
  pub worker : ℕ → Worker

module _ (n : ℕ) where
  pub data Step (g : Grader) : Grader → Type 0 where
    notifies :
        g.master ≡ ready → Step g (record g { sync = master_notify g.sync; master = awaiting })
    joins : g.master ≡ ready → Step g (record g { sync = master_join g.sync; master = joined })
    returns :
        {s : Sync} {w : Waited}
        → g.master ≡ awaiting
        → master_wait g.sync ≡ some (s, w)
        → Step g (record g { sync = s; master = ready })
    arrives :
        (i : ℕ)
        → i < n
        → g.worker i ≡ spins
        → g.sync.status ≡ wait
        → Step g (record g {
          sync = (worker_arrives g.sync).0;
          worker = update g.worker i (if (worker_arrives g.sync).1 then works else counted);
        })
    starts :
        (i : ℕ)
        → i < n
        → g.worker i ≡ counted
        → started g.sync.status ≡ true
        → Step g (record g { worker = update g.worker i works })
    finishes :
        (i : ℕ) (error : Option ℕ)
        → i < n
        → g.worker i ≡ works
        → Step g (record g { sync = worker_notify error g.sync; worker = update g.worker i spins })
    leaves :
        (i : ℕ)
        → i < n
        → g.worker i ≡ spins
        → g.sync.status ≡ quit
        → Step g (record g { worker = update g.worker i left })

  -- The states that are reached from the beginning
  pub data Reach : Grader → Type 0 where
    start : Reach (record { sync = sync_init n; master = ready; worker = λ _. spins })
    later : {g h : Grader} → Reach g → Step g h → Reach h
