-- ===== src/Sync/Phases.antt =====
-- What holds in every state of the master and the workers, by the phase they are in.
use cs_453_concurrent_algori.Common.{
  ℕ, ◌+◌, ◌<◌, ◌≡◌, ◌⊎◌, inr, refl, sym, subst, Bool, true, false, update, some, arith,
}
use cs_453_concurrent_algori.Common.Counting.{total, total-update, total_four}
use cs_453_concurrent_algori.Sync.{
  Status, wait, done, fail, quit, Sync, Master, ready, awaiting, joined, Worker, spins, counted,
  works, left, Grader, Waited, master_wait, master_notify, master_join, started,
}

abbrev pub is_spinning : Worker → ℕ
is_spinning spins = 1
is_spinning counted = 0
is_spinning works = 0
is_spinning left = 0

abbrev pub is_counted : Worker → ℕ
is_counted spins = 0
is_counted counted = 1
is_counted works = 0
is_counted left = 0

abbrev pub is_working : Worker → ℕ
is_working spins = 0
is_working counted = 0
is_working works = 1
is_working left = 0

abbrev pub is_left : Worker → ℕ
is_left spins = 0
is_left counted = 0
is_left works = 0
is_left left = 1

total_workers :
    (n : ℕ) (w : ℕ → Worker)
    → total is_spinning n w + total is_counted n w + total is_working n w + total is_left n w ≡ n
total_workers n w = total_four is_spinning is_counted is_working is_left n w (λ a. ground arith)

-- The phases
pub data Phase (m : Master) (raised : Bool) (ready_count spin count work gone n : ℕ)
    : Status → Type 0 where
  gathering :
      m ≡ awaiting
      → raised ≡ false
      → ready_count ≡ count
      → count < n
      → work ≡ 0
      → gone ≡ 0
      → Phase m raised ready_count spin count work gone n wait
  running :
      (st : Status)
      → started st ≡ true
      → m ≡ awaiting
      → raised ≡ false
      → ready_count ≡ spin
      → spin < n
      → gone ≡ 0
      → Phase m raised ready_count spin count work gone n st
  over :
      (st : Status)
      → (st ≡ done) ⊎ (st ≡ fail)
      → ((m ≡ awaiting) × (raised ≡ true)) ⊎ ((m ≡ ready) × (raised ≡ false))
      → ready_count ≡ 0
      → count ≡ 0
      → work ≡ 0
      → gone ≡ 0
      → Phase m raised ready_count spin count work gone n st
  ended : m ≡ joined → count ≡ 0 → work ≡ 0 → Phase m raised ready_count spin count work gone n quit

pub record Inv (n : ℕ) (g : Grader) : Type 0 where
  pub workers : g.sync.nbworkers ≡ n
  pub phase :
      Phase g.master g.sync.raised g.sync.nbready
        (total is_spinning n g.worker)
        (total is_counted n g.worker)
        (total is_working n g.worker)
        (total is_left n g.worker)
        n
        g.sync.status

-- The four sums behind a move of worker `i`
pub record Moved (n : ℕ) (w : ℕ → Worker) (i : ℕ) (to : Worker) : Type 0 where
  pub spin :
      is_spinning (w i) + total is_spinning n (update w i to)
      ≡ is_spinning to + total is_spinning n w
  pub count :
      is_counted (w i) + total is_counted n (update w i to) ≡ is_counted to + total is_counted n w
  pub work :
      is_working (w i) + total is_working n (update w i to) ≡ is_working to + total is_working n w
  pub gone : is_left (w i) + total is_left n (update w i to) ≡ is_left to + total is_left n w
  pub sum :
      total is_spinning n w + total is_counted n w + total is_working n w + total is_left n w ≡ n
  pub sum' :
      total is_spinning n (update w i to)
        + total is_counted n (update w i to)
        + total is_working n (update w i to)
        + total is_left n (update w i to)
      ≡ n

pub moved : (n : ℕ) (w : ℕ → Worker) (i : ℕ) (to : Worker) → i < n → Moved n w i to
moved n w i to h = record {
  spin = total-update is_spinning n w i to h;
  count = total-update is_counted n w i to h;
  work = total-update is_working n w i to h;
  gone = total-update is_left n w i to h;
  sum = total_workers n w;
  sum' = total_workers n (update w i to);
}

pub notifies-Inv :
    (n : ℕ) (g : Grader)
    → 0 < n
    → Inv n g
    → g.master ≡ ready
    → Inv n (record g { sync = master_notify g.sync; master = awaiting })
unfolding master_notify
notifies-Inv n g some_worker inv h = record { workers = inv.workers; phase = next inv.phase }
  where
    next :
        {st : Status} {a b c d : ℕ}
        → Phase g.master g.sync.raised g.sync.nbready a b c d n st
        → Phase awaiting g.sync.raised g.sync.nbready a b c d n wait
    next (gathering m r k lt wk gn) = absurd (ground arith)
    next (running st s m r k lt gn) = absurd (ground arith)
    next (over st s p k c wk gn) = gathering refl (ground arith) (omega arith) (omega arith) wk gn
    next (ended m c wk) = absurd (ground arith)

pub joins-Inv :
    (n : ℕ) (g : Grader)
    → Inv n g
    → g.master ≡ ready
    → Inv n (record g { sync = master_join g.sync; master = joined })
unfolding master_join
joins-Inv n g inv h = record { workers = inv.workers; phase = next inv.phase }
  where
    next :
        {st : Status} {a b c d : ℕ}
        → Phase g.master g.sync.raised g.sync.nbready a b c d n st
        → Phase joined g.sync.raised g.sync.nbready a b c d n quit
    next (gathering m r k lt wk gn) = absurd (ground arith)
    next (running st s m r k lt gn) = absurd (ground arith)
    next (over st s p k c wk gn) = ended refl c wk
    next (ended m c wk) = ended refl c wk

pub returns-Inv :
    (n : ℕ) (g : Grader) (s : Sync) (w : Waited)
    → Inv n g
    → g.master ≡ awaiting
    → master_wait g.sync ≡ some (s, w)
    → Inv n (record g { sync = s; master = ready })
unfolding master_wait
returns-Inv n g s w inv h e =
    let same : s ≡ record g.sync { raised = false } = ground arith in
    let up : g.sync.raised ≡ true = ground arith in
    subst (λ t. Inv n (record g { sync = t; master = ready })) (sym same)
      (record { workers = inv.workers; phase = next up inv.phase })
  where
    next :
        {st : Status} {a b c d : ℕ}
        → g.sync.raised ≡ true
        → Phase g.master g.sync.raised g.sync.nbready a b c d n st
        → Phase ready false g.sync.nbready a b c d n st
    next up (gathering m r k lt wk gn) = absurd (ground arith)
    next up (running st q m r k lt gn) = absurd (ground arith)
    next up (over st q p k c wk gn) = over st q (inr (refl, refl)) k c wk gn
    next up (ended m c wk) = absurd (ground arith)
