-- ===== src/Sync/Finishing.antt =====
-- A worker that finishes keeps the phases; what the master gets.
use cs_453_concurrent_algori.Common.{
  ℕ, suc, ◌<◌, ◌≡◌, ◌≢◌, ◌⊎◌, inl, inr, refl, sym, subst, ◌∙◌, ℕ_discrete, true, Option, none, some,
  arith,
}
use cs_453_concurrent_algori.Common.Counting.{total, total_zero, weight-le-total}
use cs_453_concurrent_algori.Sync.{
  Status, done, fail, Sync, awaiting, spins, works, Grader, Waited, unreachable, master_wait,
  worker_notify, started, final_status, Step, Reach, notifies, joins, returns, arrives, starts,
  finishes, leaves, start, later,
}
use cs_453_concurrent_algori.Sync.{report, waited}
use cs_453_concurrent_algori.Sync.Phases.{
  is_spinning, is_counted, is_working, is_left, Phase, gathering, running, over, ended, Inv, moved,
  notifies-Inv, joins-Inv, returns-Inv,
}
use cs_453_concurrent_algori.Sync.Arriving.{Behind, Now, Then, arrives-Inv, starts-Inv, leaves-Inv}

pub finishes_last :
    (error : Option ℕ) (s : Sync)
    → suc s.nbready ≡ s.nbworkers
    → worker_notify error s ≡ record (report error s) {
      nbready = 0;
      status = final_status (report error s).status;
      raised = true;
    }
unfolding worker_notify
finishes_last none s e = ground arith
finishes_last (some x) s e = ground arith

pub finishes_early :
    (error : Option ℕ) (s : Sync)
    → suc s.nbready ≢ s.nbworkers
    → worker_notify error s ≡ record (report error s) { nbready = suc s.nbready }
unfolding worker_notify
finishes_early none s e = ground arith
finishes_early (some x) s e = ground arith

final-over : (st : Status) → (final_status st ≡ done) ⊎ (final_status st ≡ fail)
final-over st = ground arith

report-workers : (error : Option ℕ) (s : Sync) → (report error s).nbworkers ≡ s.nbworkers
report-workers none s = refl
report-workers (some x) s = refl

report-raised : (error : Option ℕ) (s : Sync) → (report error s).raised ≡ s.raised
report-raised none s = refl
report-raised (some x) s = refl

pub report-started :
    (error : Option ℕ) (s : Sync) → started s.status ≡ true → started (report error s).status ≡ true
report-started none s h = h
report-started (some x) s h = refl

module _ (n : ℕ) (g : Grader) (i : ℕ) (inv : Inv n g) (lt : i < n) (e : g.worker i ≡ works) where
  pub started-Now : {st : Status} → Now n g i inv lt st → started st ≡ true
  started-Now (gathering m r c l wk gn) =
      let v = moved n g.worker i spins lt in
      let work1 : is_working (g.worker i) ≡ 1 = ground arith in absurd (omega (arith, v.work))
  started-Now (running st h m r c l gn) = h
  started-Now (over st h p c z wk gn) =
      let v = moved n g.worker i spins lt in
      let work1 : is_working (g.worker i) ≡ 1 = ground arith in absurd (omega (arith, v.work))
  started-Now (ended m c wk) =
      let v = moved n g.worker i spins lt in
      let work1 : is_working (g.worker i) ≡ 1 = ground arith in absurd (omega (arith, v.work))

  last_phase :
      {st st' : Status}
      → started st ≡ true
      → (st' ≡ done) ⊎ (st' ≡ fail)
      → suc g.sync.nbready ≡ n
      → Now n g i inv lt st
      → Then n g i inv lt spins 0 true st'
  last_phase q f k (gathering m r c l wk gn) = absurd (ground arith)
  last_phase {st} {st'} q f k (running _ h m r c l gn) =
      let v = moved n g.worker i spins lt in
      let spin0 : is_spinning (g.worker i) ≡ 0 = ground arith in
      let gone0 : is_left (g.worker i) ≡ 0 = ground arith in
      over st' f (inl (m, refl)) refl (omega (arith, v.spin, v.sum'))
        (omega (arith, v.spin, v.sum')) (omega (arith, v.gone))
  last_phase q f k (over st h p c z wk gn) = absurd (ground arith)
  last_phase q f k (ended m c wk) = absurd (ground arith)

  more_phase :
      {st st' : Status}
      → started st ≡ true
      → started st' ≡ true
      → suc g.sync.nbready ≢ n
      → Now n g i inv lt st
      → Then n g i inv lt spins (suc g.sync.nbready) g.sync.raised st'
  more_phase q f k (gathering m r c l wk gn) = absurd (ground arith)
  more_phase {st} {st'} q f k (running _ h m r c l gn) =
      let v = moved n g.worker i spins lt in
      let spin0 : is_spinning (g.worker i) ≡ 0 = ground arith in
      let gone0 : is_left (g.worker i) ≡ 0 = ground arith in
      running st' f m r (omega (arith, v.spin)) (omega (arith, v.spin)) (omega (arith, v.gone))
  more_phase q f k (over st h p c z wk gn) = absurd (ground arith)
  more_phase q f k (ended m c wk) = absurd (ground arith)

  finishes-Inv : (error : Option ℕ) → Behind n g i inv lt (worker_notify error g.sync) spins
  finishes-Inv error =
      let now = started-Now inv.phase in
      let s = report error g.sync in
      let same = report-workers error g.sync in
      elim (ℕ_discrete (suc g.sync.nbready) g.sync.nbworkers) [
        | yes k ↦
            subst (λ t. Behind n g i inv lt t spins) (sym (finishes_last error g.sync k))
              (record {
                workers = same ∙ inv.workers;
                phase = last_phase now (final-over s.status) (k ∙ inv.workers) inv.phase;
              })
        | no k ↦
            subst (λ t. Behind n g i inv lt t spins) (sym (finishes_early error g.sync k))
              (record {
                workers = same ∙ inv.workers;
                phase =
                    subst (λ b. Then n g i inv lt spins (suc g.sync.nbready) b s.status)
                      (sym (report-raised error g.sync))
                      (more_phase now (report-started error g.sync now)
                        (λ h. k (h ∙ sym inv.workers)) inv.phase);
              })
      ]

Step-Inv : {n : ℕ} {g h : Grader} → 0 < n → Step n g h → Inv n g → Inv n h
Step-Inv {n} {g} pos (notifies m) inv = notifies-Inv n g pos inv m
Step-Inv {n} {g} pos (joins m) inv = joins-Inv n g inv m
Step-Inv {n} {g} pos (returns {s} {w} m e) inv = returns-Inv n g s w inv m e
Step-Inv {n} {g} pos (arrives i lt e q) inv = arrives-Inv n g i inv lt e q
Step-Inv {n} {g} pos (starts i lt e q) inv = starts-Inv n g i inv lt e q
Step-Inv {n} {g} pos (finishes i error lt e) inv = finishes-Inv n g i inv lt e error
Step-Inv {n} {g} pos (leaves i lt e q) inv = leaves-Inv n g i inv lt e q

pub Reach-Inv : {n : ℕ} {g : Grader} → 0 < n → Reach n g → Inv n g
Reach-Inv {n} pos start = record {
  workers = refl;
  phase =
      over done (inl refl) (inr (refl, refl)) refl
        (total_zero is_counted n (λ _. spins) (λ j h. refl))
        (total_zero is_working n (λ _. spins) (λ j h. refl))
        (total_zero is_left n (λ _. spins) (λ j h. refl));
}
Reach-Inv pos (later r st) = Step-Inv pos st (Reach-Inv pos r)

-- Where `master_wait` returns, it is not at the branch that is meant to be unreachable, and no worker is in
-- the run or counted for it.
pub master_wait-over :
    (n : ℕ) (g : Grader)
    → 0 < n
    → Reach n g
    → (s : Sync) (w : Waited) → g.master ≡ awaiting
    → master_wait g.sync ≡ some (s, w)
    → (w ≢ unreachable) × ((i : ℕ) → i < n → g.worker i ≡ spins)
unfolding master_wait
master_wait-over n g pos r s w m e = result refl (Reach-Inv pos r).phase
  where
    quiet :
        total is_counted n g.worker ≡ 0
        → total is_working n g.worker ≡ 0
        → total is_left n g.worker ≡ 0
        → (i : ℕ) → i < n
        → g.worker i ≡ spins
    quiet a b c i lt = ground (
      arith,
      weight-le-total is_counted n g.worker i lt,
      weight-le-total is_working n g.worker i lt,
      weight-le-total is_left n g.worker i lt,
    )

    up : g.sync.raised ≡ true
    up = ground arith

    given : w ≡ waited g.sync.status g.sync.errmsg
    given = ground arith

    result :
        {st : Status}
        → g.sync.status ≡ st
        → Phase g.master g.sync.raised g.sync.nbready
            (total is_spinning n g.worker)
            (total is_counted n g.worker)
            (total is_working n g.worker)
            (total is_left n g.worker)
            n
            st
        → (w ≢ unreachable) × ((i : ℕ) → i < n → g.worker i ≡ spins)
    result q (gathering a b c d f h) = absurd (ground (arith, up))
    result q (running st h a b c d f) = absurd (ground (arith, up))
    result q (over st h a b c d f) = (ground (arith, given), quiet c d f)
    result q (ended a b c) = absurd (ground (arith, up))
