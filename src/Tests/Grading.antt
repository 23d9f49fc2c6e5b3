-- ===== src/Tests/Grading.antt =====
-- The theorem on the master, where the only worker has reported an error.
use cs_453_concurrent_algori.Common.{ℕ, ◌<◌, ◌≡◌, refl, true, false, some, update, arith}
use cs_453_concurrent_algori.Sync.{
  Sync, Grader, failure, fail, awaiting, spins, works, Reach, start, later, notifies, arrives,
  finishes, master_notify, master_wait, worker_arrives, worker_notify,
}
use cs_453_concurrent_algori.Sync.Outcome.{reported, outcome, master_wait-outcome}

abbrev failed : Sync
failed = record { nbworkers = 1; nbready = 0; status = fail; errmsg = some 5; raised = true }

abbrev failed_run : Grader
failed_run = record {
  sync = failed;
  master = awaiting;
  worker = update (update (λ _. spins) 0 works) 0 spins;
}

failed_run-Reach : Reach 1 failed_run
unfolding master_notify worker_arrives worker_notify
failed_run-Reach =
    later (later (later start (notifies refl)) (arrives 0 (omega arith) refl refl))
      (finishes 0 (some 5) (omega arith) refl)

returned : master_wait failed ≡ some (record failed { raised = false }, failure (some 5))
unfolding master_wait
returned = refl

master_wait-outcome_example :
    (failure (some 5) ≡ outcome (reported failed_run-Reach))
    × ((i : ℕ) → i < 1 → failed_run.worker i ≡ spins)
master_wait-outcome_example =
    master_wait-outcome 1 failed_run (omega arith) failed_run-Reach
      (record failed { raised = false }) (failure (some 5)) refl returned
