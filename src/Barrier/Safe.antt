-- ===== src/Barrier/Safe.antt =====
-- No thread leaves the barrier before all have come, and the threads are never stuck there.
use cs_453_concurrent_algori.Common.{
  ℕ, suc, ◌-◌, ◌<◌, ◌≤◌, ◌≡◌, inl, inr, refl, sym, ap, ◌==◌, if◌then◌else◌, arith,
}
use cs_453_concurrent_algori.Common.Counting.{
  total, total-update, total_zero, total_pos, total_four,
}
use cs_453_concurrent_algori.Barrier.{
  BarrierMode, enter, leave, sync_enters, sync_leaves, Visitor, before, lets_leave, waits_leave,
  may_leave, lets_enter, waits_enter, Meeting, SyncStep, comes, stores_leave, sees_leave, goes,
  stores_enter, sees_enter, Meets, alone, followed,
}
use cs_453_concurrent_algori.Barrier.Phases.{
  is_inside, is_outside, is_last, is_last_out, Coming, Going, Phase, coming, going, Inv,
}
use cs_453_concurrent_algori.Barrier.Steps.{
  comes-Phase, stores_leave-Phase, sees_leave-Phase, goes-Phase, stores_enter-Phase,
  sees_enter-Phase,
}

-- The calls of `sync` that a thread has begun, and those in which it is behind the first loop
abbrev pub begun : Visitor → ℕ
begun (before k) = k
begun (lets_leave k) = suc k
begun (waits_leave k) = suc k
begun (may_leave k) = suc k
begun (lets_enter k) = suc k
begun (waits_enter k) = suc k

abbrev pub passed : Visitor → ℕ
passed (before k) = k
passed (lets_leave k) = k
passed (waits_leave k) = k
passed (may_leave k) = suc k
passed (lets_enter k) = suc k
passed (waits_enter k) = suc k

step-Inv : (n i : ℕ) (m m' : Meeting) → i < n → Inv n m → SyncStep n m i m' → Inv n m'
unfolding sync_enters sync_leaves
step-Inv n i m m' lt inv (comes k e) =
    let last = suc m.barrier.step == m.barrier.cardinal in
    let to = if last then lets_leave k else waits_leave k in
    let t = total-update is_inside n m.visitor i to lt in
    let was : is_inside (m.visitor i) ≡ 0 = ap is_inside e in
    let now : is_inside to ≡ 1 = ground arith in
    record {
      threads = inv.threads;
      counted = omega (arith, inv.counted, t, was, now);
      phase =
          comes-Phase n m.barrier.step m.visitor i k lt inv.counted last
            (ap (λ c. suc m.barrier.step == c) (sym inv.threads)) e inv.phase;
    }
step-Inv n i m m' lt inv (stores_leave k e) =
    let t = total-update is_inside n m.visitor i (may_leave k) lt in
    let was : is_inside (m.visitor i) ≡ 1 = ap is_inside e in
    record {
      threads = inv.threads;
      counted = omega (arith, inv.counted);
      phase = stores_leave-Phase n m.barrier.step m.visitor i k lt inv.counted e inv.phase;
    }
step-Inv n i m m' lt inv (sees_leave k e h) =
    let t = total-update is_inside n m.visitor i (may_leave k) lt in
    let was : is_inside (m.visitor i) ≡ 1 = ap is_inside e in
    record {
      threads = inv.threads;
      counted = omega (arith, inv.counted);
      phase = sees_leave-Phase n m.barrier.step m.visitor i k lt inv.counted e h inv.phase;
    }
step-Inv n i m m' lt inv (goes k e) =
    let last = m.barrier.step - 1 == 0 in
    let to = if last then lets_enter k else waits_enter k in
    let t = total-update is_inside n m.visitor i to lt in
    let was : is_inside (m.visitor i) ≡ 1 = ap is_inside e in
    let now : is_inside to ≡ 0 = ground arith in
    record {
      threads = inv.threads;
      counted = omega (arith, inv.counted, t, was, now);
      phase = goes-Phase n m.barrier.step m.visitor i k lt inv.counted last refl e inv.phase;
    }
step-Inv n i m m' lt inv (stores_enter k e) =
    let t = total-update is_inside n m.visitor i (before (suc k)) lt in
    let was : is_inside (m.visitor i) ≡ 0 = ap is_inside e in
    record {
      threads = inv.threads;
      counted = omega (arith, inv.counted);
      phase = stores_enter-Phase n m.barrier.step m.visitor i k lt inv.counted e inv.phase;
    }
step-Inv n i m m' lt inv (sees_enter k e h) =
    let t = total-update is_inside n m.visitor i (before (suc k)) lt in
    let was : is_inside (m.visitor i) ≡ 0 = ap is_inside e in
    record {
      threads = inv.threads;
      counted = omega (arith, inv.counted);
      phase = sees_enter-Phase n m.barrier.step m.visitor i k lt inv.counted e h inv.phase;
    }

Meets-Inv : (n : ℕ) (m : Meeting) → 0 < n → Meets n m → Inv n m
Meets-Inv n m some_thread alone = record {
  threads = refl;
  counted = sym (total_zero is_inside n (λ i. before 0) (λ j p. refl));
  phase =
      coming 0 (λ j p. refl)
        (inl (total_zero is_last n (λ i. before 0) (λ j p. refl), some_thread));
}
Meets-Inv n m' some_thread (followed {m = m} i h lt s) =
    step-Inv n i m m' lt (Meets-Inv n m some_thread h) s

Coming-bounds : (c : ℕ) (v : Visitor) → Coming c v → (passed v ≤ c) × (c ≤ begun v)
Coming-bounds c (before k) a = (omega arith, omega arith)
Coming-bounds c (lets_leave k) a = (omega arith, omega arith)
Coming-bounds c (waits_leave k) a = (omega arith, omega arith)
Coming-bounds c (may_leave k) a = absurd a
Coming-bounds c (lets_enter k) a = absurd a
Coming-bounds c (waits_enter k) a = (omega arith, omega arith)

Going-bounds : (c : ℕ) (v : Visitor) → Going c v → (passed v ≤ suc c) × (suc c ≤ begun v)
Going-bounds c (before k) a = absurd a
Going-bounds c (lets_leave k) a = absurd a
Going-bounds c (waits_leave k) a = (omega arith, omega arith)
Going-bounds c (may_leave k) a = (omega arith, omega arith)
Going-bounds c (lets_enter k) a = (omega arith, omega arith)
Going-bounds c (waits_enter k) a = (omega arith, omega arith)

Phase-bounds :
    {md : BarrierMode} (n step : ℕ) (w : ℕ → Visitor) (i j : ℕ)
    → i < n
    → j < n
    → Phase n step w md
    → passed (w i) ≤ begun (w j)
Phase-bounds n step w i j p q (coming c all h) =
    omega (arith, (Coming-bounds c (w i) (all i p)).0, (Coming-bounds c (w j) (all j q)).1)
Phase-bounds n step w i j p q (going c all h) =
    omega (arith, (Going-bounds c (w i) (all i p)).0, (Going-bounds c (w j) (all j q)).1)

-- Some thread can make a step that is not a round of a loop.
abbrev pub Moving : ℕ → Meeting → Type 0
Moving n m = (i : ℕ) × (m' : Meeting) × (i < n) × SyncStep n m i m'

module _ (n : ℕ) (m : Meeting) (i : ℕ) (lt : i < n) where
  store_leave : (v : Visitor) → m.visitor i ≡ v → 0 < is_last v → Moving n m
  store_leave (lets_leave k) e h = (i, _, lt, stores_leave k e)
  store_leave (before k) e h = absurd (omega arith)
  store_leave (waits_leave k) e h = absurd (omega arith)
  store_leave (may_leave k) e h = absurd (omega arith)
  store_leave (lets_enter k) e h = absurd (omega arith)
  store_leave (waits_enter k) e h = absurd (omega arith)

  store_enter : (v : Visitor) → m.visitor i ≡ v → 0 < is_last_out v → Moving n m
  store_enter (lets_enter k) e h = (i, _, lt, stores_enter k e)
  store_enter (before k) e h = absurd (omega arith)
  store_enter (waits_leave k) e h = absurd (omega arith)
  store_enter (may_leave k) e h = absurd (omega arith)
  store_enter (lets_leave k) e h = absurd (omega arith)
  store_enter (waits_enter k) e h = absurd (omega arith)

  come :
      (c : ℕ) (v : Visitor)
      → m.visitor i ≡ v
      → Coming c v
      → m.barrier.mode ≡ enter
      → 0 < is_outside v
      → Moving n m
  come c (before k) e a q h = (i, _, lt, comes k e)
  come c (waits_enter k) e a q h = (i, _, lt, sees_enter k e q)
  come c (lets_leave k) e a q h = absurd (omega arith)
  come c (waits_leave k) e a q h = absurd (omega arith)
  come c (may_leave k) e a q h = absurd a
  come c (lets_enter k) e a q h = absurd a

  go :
      (c : ℕ) (v : Visitor)
      → m.visitor i ≡ v
      → Going c v
      → m.barrier.mode ≡ leave
      → 0 < is_inside v
      → Moving n m
  go c (waits_leave k) e a q h = (i, _, lt, sees_leave k e q)
  go c (may_leave k) e a q h = (i, _, lt, goes k e)
  go c (before k) e a q h = absurd a
  go c (lets_leave k) e a q h = absurd a
  go c (lets_enter k) e a q h = absurd (omega arith)
  go c (waits_enter k) e a q h = absurd (omega arith)

moves_on :
    {md : BarrierMode} (n : ℕ) (m : Meeting)
    → m.barrier.mode ≡ md
    → m.barrier.step ≡ total is_inside n m.visitor
    → Phase n m.barrier.step m.visitor md
    → Moving n m
moves_on n m q counted (coming c all (inr (one, full))) =
    let (i, lt, h) = total_pos is_last n m.visitor (omega arith) in
    store_leave n m i lt (m.visitor i) refl h
moves_on n m q counted (coming c all (inl (none_last, room))) =
    let parts = total_four is_inside is_outside (λ v. 0) (λ v. 0) n m.visitor (λ v. ground arith) in
    let zeros = total_zero (λ (v : Visitor). 0) n m.visitor (λ j p. refl) in
    let (i, lt, h) = total_pos is_outside n m.visitor (omega arith) in
    come n m i lt c (m.visitor i) refl (all i lt) q h
moves_on n m q counted (going c all (inr (one, none_in))) =
    let (i, lt, h) = total_pos is_last_out n m.visitor (omega arith) in
    store_enter n m i lt (m.visitor i) refl h
moves_on n m q counted (going c all (inl (none_out, some_in))) =
    let (i, lt, h) = total_pos is_inside n m.visitor (omega arith) in
    go n m i lt c (m.visitor i) refl (all i lt) q h

-- At a barrier that is made for as many threads as there are, which call `sync` again and again: no
-- thread is behind the first loop of a call before every thread has begun that call, whatever the order
-- of the atomic operations, and in each state some thread can make a step other than to go on spinning.
pub sync_together :
    (n : ℕ) (m : Meeting)
    → 0 < n
    → Meets n m
    → ((i j : ℕ) → i < n → j < n → passed (m.visitor i) ≤ begun (m.visitor j)) × Moving n m
sync_together n m some_thread h =
    let inv = Meets-Inv n m some_thread h in
    (
      λ i j p q. Phase-bounds n m.barrier.step m.visitor i j p q inv.phase,
      moves_on n m refl inv.counted inv.phase,
    )
