-- ===== src/Sync/Arriving.antt =====
-- Workers that arrive, start and leave keep the phases.
use cs_453_concurrent_algori.Common.{
  ℕ, suc, ◌<◌, ◌≡◌, ◌≢◌, refl, sym, subst, ◌∙◌, ℕ_discrete, Bool, true, false, update, arith,
  if◌then◌else◌,
}
use cs_453_concurrent_algori.Common.Counting.{total}
use cs_453_concurrent_algori.Sync.{
  Status, wait, run, quit, Sync, Worker, spins, counted, works, left, Grader, worker_arrives,
  started,
}
use cs_453_concurrent_algori.Sync.Phases.{
  is_spinning, is_counted, is_working, is_left, Phase, gathering, running, over, ended, Inv, moved,
}

pub arrives_latest :
    (s : Sync)
    → suc s.nbready ≡ s.nbworkers
    → worker_arrives s ≡ (record s { nbready = 0; status = run }, true)
unfolding worker_arrives
arrives_latest s e = ground arith

pub arrives_early :
    (s : Sync)
    → suc s.nbready ≢ s.nbworkers
    → worker_arrives s ≡ (record s { nbready = suc s.nbready }, false)
unfolding worker_arrives
arrives_early s e = ground arith

module _ (n : ℕ) (g : Grader) (i : ℕ) (inv : Inv n g) (lt : i < n) where
  abbrev pub Behind : Sync → Worker → Type 0
  Behind s to = Inv n (record g { sync = s; worker = update g.worker i to })

  abbrev pub Now : Status → Type 0
  Now st =
      Phase g.master g.sync.raised g.sync.nbready (total is_spinning n g.worker)
        (total is_counted n g.worker) (total is_working n g.worker) (total is_left n g.worker) n st

  abbrev pub Then : Worker → ℕ → Bool → Status → Type 0
  Then to k raised st =
      Phase g.master raised k (total is_spinning n (update g.worker i to))
        (total is_counted n (update g.worker i to)) (total is_working n (update g.worker i to))
        (total is_left n (update g.worker i to)) n st

  latest_phase :
      {st : Status}
      → st ≡ wait
      → g.worker i ≡ spins
      → suc g.sync.nbready ≡ n
      → Now st
      → Then works 0 g.sync.raised run
  latest_phase q e k (gathering m r c l wk gn) =
      let v = moved n g.worker i works lt in
      let spin1 : is_spinning (g.worker i) ≡ 1 = ground arith in
      let gone0 : is_left (g.worker i) ≡ 0 = ground arith in
      let count0 : is_counted (g.worker i) ≡ 0 = ground arith in
      running run refl m r (omega (arith, v.spin, v.count, v.gone, v.sum))
        (omega (arith, v.spin, v.count, v.gone, v.sum)) (omega (arith, v.gone))
  latest_phase q e k (running st h m r c l gn) = absurd (ground arith)
  latest_phase q e k (over st h p c z wk gn) = absurd (ground arith)
  latest_phase q e k (ended m c wk) = absurd (ground arith)

  early_phase :
      {st : Status}
      → st ≡ wait
      → g.worker i ≡ spins
      → suc g.sync.nbready ≢ n
      → Now st
      → Then counted (suc g.sync.nbready) g.sync.raised st
  early_phase q e k (gathering m r c l wk gn) =
      let v = moved n g.worker i counted lt in
      let spin1 : is_spinning (g.worker i) ≡ 1 = ground arith in
      let gone0 : is_left (g.worker i) ≡ 0 = ground arith in
      let count0 : is_counted (g.worker i) ≡ 0 = ground arith in
      let work0 : is_working (g.worker i) ≡ 0 = ground arith in
      gathering m r (omega (arith, v.count)) (omega (arith, v.count)) (omega (arith, v.work))
        (omega (arith, v.gone))
  early_phase q e k (running st h m r c l gn) = absurd (ground arith)
  early_phase q e k (over st h p c z wk gn) = absurd (ground arith)
  early_phase q e k (ended m c wk) = absurd (ground arith)

  pub arrives-Inv :
      g.worker i ≡ spins
      → g.sync.status ≡ wait
      → Behind (worker_arrives g.sync).0 (if (worker_arrives g.sync).1 then works else counted)
  arrives-Inv e q = elim (ℕ_discrete (suc g.sync.nbready) g.sync.nbworkers) [
    | yes k ↦
        subst (λ p. Behind p.0 (if p.1 then works else counted)) (sym (arrives_latest g.sync k))
          (record { workers = inv.workers; phase = latest_phase q e (k ∙ inv.workers) inv.phase })
    | no k ↦
        subst (λ p. Behind p.0 (if p.1 then works else counted)) (sym (arrives_early g.sync k))
          (record {
            workers = inv.workers;
            phase = early_phase q e (λ h. k (h ∙ sym inv.workers)) inv.phase;
          })
  ]

  pub starts-Inv : g.worker i ≡ counted → started g.sync.status ≡ true → Behind g.sync works
  starts-Inv e q = record { workers = inv.workers; phase = next q inv.phase }
    where
      next : {st : Status} → started st ≡ true → Now st → Then works g.sync.nbready g.sync.raised st
      next q (gathering m r c l wk gn) = absurd (ground arith)
      next q (running st h m r c l gn) =
          let v = moved n g.worker i works lt in
          let spin0 : is_spinning (g.worker i) ≡ 0 = ground arith in
          let gone0 : is_left (g.worker i) ≡ 0 = ground arith in
          running st h m r (omega (arith, v.spin)) (omega (arith, v.spin)) (omega (arith, v.gone))
      next q (over st h p c z wk gn) = absurd (ground arith)
      next q (ended m c wk) = absurd (ground arith)

  pub leaves-Inv : g.worker i ≡ spins → g.sync.status ≡ quit → Behind g.sync left
  leaves-Inv e q = record { workers = inv.workers; phase = next q inv.phase }
    where
      next : {st : Status} → st ≡ quit → Now st → Then left g.sync.nbready g.sync.raised st
      next q (gathering m r c l wk gn) = absurd (ground arith)
      next q (running st h m r c l gn) = absurd (ground arith)
      next q (over st h p c z wk gn) = absurd (ground arith)
      next q (ended m c wk) =
          let v = moved n g.worker i left lt in
          let count0 : is_counted (g.worker i) ≡ 0 = ground arith in
          let work0 : is_working (g.worker i) ≡ 0 = ground arith in
          ended m (omega (arith, v.count)) (omega (arith, v.work))
