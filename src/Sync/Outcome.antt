-- ===== src/Sync/Outcome.antt =====
-- What `master_wait` tells of a run: the error that a worker reported in it, if one did.
use cs_453_concurrent_algori.Common.{
  ℕ, suc, ◌<◌, ◌≡◌, ◌≢◌, refl, ap, sym, subst, ◌∙◌, ℕ_discrete, true, false, Option, none, some,
  arith,
}
use cs_453_concurrent_algori.Sync.{
  Status, wait, run, abort, done, fail, quit, Sync, awaiting, spins, Grader, Waited, success,
  failure, unreachable, waited, master_notify, master_join, master_wait, worker_arrives,
  worker_notify, started, final_status, report, Step, Reach, notifies, joins, returns, arrives,
  starts, finishes, leaves, start, later,
}
use cs_453_concurrent_algori.Sync.Finishing.{
  finishes_last, finishes_early, report-started, started-Now, Reach-Inv, master_wait-over,
}
use cs_453_concurrent_algori.Sync.Phases.{Inv}
use cs_453_concurrent_algori.Sync.Arriving.{arrives_latest, arrives_early}

-- The error that a worker reported last since the master's latest `master_notify`
abbrev pub reported_by : {n : ℕ} {g h : Grader} → Option ℕ → Step n g h → Option ℕ
reported_by before (notifies m) = none
reported_by before (finishes i (some error) lt e) = some error
reported_by before (finishes i none lt e) = before
reported_by before (joins m) = before
reported_by before (returns m e) = before
reported_by before (arrives i lt e q) = before
reported_by before (starts i lt e q) = before
reported_by before (leaves i lt e q) = before

unfoldable pub reported : {n : ℕ} {g : Grader} → Reach n g → Option ℕ
reported start = none
reported (later r st) = reported_by (reported r) st

-- What the status and the message say of that error
abbrev Told : Status → Option ℕ → Option ℕ → Type 0
Told wait message error = error ≡ none
Told run message error = error ≡ none
Told done message error = error ≡ none
Told abort message error = (x : ℕ) × (error ≡ some x) × (message ≡ some x)
Told fail message error = (x : ℕ) × (error ≡ some x) × (message ≡ some x)
Told quit message error = Unit

abbrev ToldSync : Sync → Option ℕ → Type 0
ToldSync s error = Told s.status s.errmsg error

arrives-ToldSync :
    (s : Sync) (error : Option ℕ)
    → s.status ≡ wait
    → ToldSync s error
    → ToldSync (worker_arrives s).0 error
arrives-ToldSync s error q h =
    let none_yet : error ≡ none = subst (λ st. Told st s.errmsg error) q h in
    elim (ℕ_discrete (suc s.nbready) s.nbworkers) [
      | yes k ↦ subst (λ p. ToldSync p.0 error) (sym (arrives_latest s k)) none_yet
      | no k ↦ subst (λ p. ToldSync p.0 error) (sym (arrives_early s k)) h
    ]

returns-ToldSync :
    (s t : Sync) (w : Waited) (error : Option ℕ)
    → master_wait s ≡ some (t, w)
    → ToldSync s error
    → ToldSync t error
unfolding master_wait
returns-ToldSync s t w error e h =
    let same : t ≡ record s { raised = false } = ground arith in
    subst (λ u. ToldSync u error) (sym same) h

-- The error that counts behind a report
abbrev latest : Option ℕ → Option ℕ → Option ℕ
latest none before = before
latest (some x) before = some x

report-ToldSync :
    (s : Sync) (e error : Option ℕ) → ToldSync s error → ToldSync (report e s) (latest e error)
report-ToldSync s none error h = h
report-ToldSync s (some x) error h = (x, refl, refl)

final-Told :
    (st : Status) (message error : Option ℕ)
    → started st ≡ true
    → Told st message error
    → Told (final_status st) message error
final-Told run message error q h = h
final-Told abort message error q h = h
final-Told wait message error q h = absurd (ground arith)
final-Told done message error q h = absurd (ground arith)
final-Told fail message error q h = absurd (ground arith)
final-Told quit message error q h = absurd (ground arith)

notify-ToldSync :
    (s : Sync) (e error : Option ℕ)
    → started s.status ≡ true
    → ToldSync s error
    → ToldSync (worker_notify e s) (latest e error)
notify-ToldSync s e error q h =
    let told = report-ToldSync s e error h in
    elim (ℕ_discrete (suc s.nbready) s.nbworkers) [
      | yes k ↦
          subst (λ t. ToldSync t (latest e error)) (sym (finishes_last e s k))
            (final-Told (report e s).status (report e s).errmsg (latest e error)
              (report-started e s q) told)
      | no k ↦ subst (λ t. ToldSync t (latest e error)) (sym (finishes_early e s k)) told
    ]

step-Told :
    {n : ℕ} {g h : Grader} (st : Step n g h) (error : Option ℕ)
    → Inv n g
    → ToldSync g.sync error
    → ToldSync h.sync (reported_by error st)
unfolding master_notify master_join
step-Told (notifies m) error inv t = refl
step-Told (joins m) error inv t = tt
step-Told {n} {g} (returns {s} {w} m e) error inv t = returns-ToldSync g.sync s w error e t
step-Told {n} {g} (arrives i lt e q) error inv t = arrives-ToldSync g.sync error q t
step-Told (starts i lt e q) error inv t = t
step-Told {n} {g} (finishes i none lt e) error inv t =
    notify-ToldSync g.sync none error (started-Now n g i inv lt e inv.phase) t
step-Told {n} {g} (finishes i (some x) lt e) error inv t =
    notify-ToldSync g.sync (some x) error (started-Now n g i inv lt e inv.phase) t
step-Told (leaves i lt e q) error inv t = t

reach-Told : {n : ℕ} {g : Grader} → 0 < n → (r : Reach n g) → ToldSync g.sync (reported r)
unfolding reported
reach-Told some_worker start = refl
reach-Told some_worker (later r st) =
    step-Told st (reported r) (Reach-Inv some_worker r) (reach-Told some_worker r)

-- What `master_wait` should give
abbrev pub outcome : Option ℕ → Waited
outcome none = success
outcome (some error) = failure (some error)

waited-outcome :
    (st : Status) (message error : Option ℕ)
    → Told st message error
    → waited st message ≢ unreachable
    → waited st message ≡ outcome error
waited-outcome done message error h q = ap outcome (sym h)
waited-outcome fail message error (x, h, k) q = ap failure k ∙ ap outcome (sym h)
waited-outcome wait message error h q = absurd (q refl)
waited-outcome run message error h q = absurd (q refl)
waited-outcome abort message error h q = absurd (q refl)
waited-outcome quit message error h q = absurd (q refl)

-- On every way `r` on which the master and `n` workers reach a state, `n` not zero: where `master_wait`
-- returns there, it gives the failure with the error that a worker reported last since the master's latest
-- `master_notify`, and the success if none did; and no worker is in the run or counted for it.
pub master_wait-outcome :
    (n : ℕ) (g : Grader)
    → 0 < n
    → (r : Reach n g) (s : Sync) (w : Waited) → g.master ≡ awaiting
    → master_wait g.sync ≡ some (s, w)
    → (w ≡ outcome (reported r)) × ((i : ℕ) → i < n → g.worker i ≡ spins)
unfolding master_wait
master_wait-outcome n g some_worker r s w m e =
    let (reached, quiet) = master_wait-over n g some_worker r s w m e in
    let given : w ≡ waited g.sync.status g.sync.errmsg = ground arith in
    (
      given
          ∙ waited-outcome g.sync.status g.sync.errmsg (reported r) (reach-Told some_worker r)
              (λ k. reached (given ∙ k)),
      quiet,
    )
