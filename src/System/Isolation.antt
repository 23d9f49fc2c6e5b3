-- ===== src/System/Isolation.antt =====
-- Within an epoch no transaction sees what another one writes: the committed bytes stand still until the
-- last transaction of the epoch leaves.
pub mod Calls
use cs_453_concurrent_algori.Common.{
  ℕ, suc, ◌+◌, ◌<◌, ◌≤◌, ◌≡◌, ◌≢◌, ◌∙◌, refl, Bool, true, false, Option, update, Outcome, done,
  arith, Bool-cases, ◌⊎◌, inl, inr, if◌then◌else◌, ◌==◌, ap,
}
use cs_453_concurrent_algori.Common.Counting.{total, weight-le-total, total-update}
use cs_453_concurrent_algori.Common.Int.{is_pos, pos}
use cs_453_concurrent_algori.Segment.{Segment}
use cs_453_concurrent_algori.Word.Spec.{committed_bytes}
use cs_453_concurrent_algori.Batcher.{Batcher, entered, waits}
use cs_453_concurrent_algori.Region.{Region, segment_at, set_segment}
use cs_453_concurrent_algori.System.{
  Pc, idle, running, refused, pc_left, System, Step, begins, blocks, resumes, reads, read_refused,
  writes, write_refused, allocates, frees, free_aborts, aborts, ends,
}
use cs_453_concurrent_algori.System.Batch.{
  batcher_left, leave_batcher-batcher, abort-batcher, tm_free_aborts-batcher, tm_begin-entered,
  tm_begin-waits, tm_begin_woken-batcher, tm_alloc-batcher, tm_free-batcher,
}
use cs_453_concurrent_algori.System.Invariant.{Inv}
use cs_453_concurrent_algori.System.Invariant.Counts.{active}
use cs_453_concurrent_algori.System.Safety.{Running, Running-Inv}
use cs_453_concurrent_algori.Tm.{tm_end}
use Calls.{
  Kept, KeptAll, read_word-Kept, write_word-Kept, leave-KeptAll, abort-KeptAll, tm_free-KeptAll,
  tm_free_aborts-KeptAll, tm_begin-KeptAll, tm_begin_woken-KeptAll,
}

-- Whether a step is a call of `tm_alloc`
abbrev pub is_alloc : {n : ℕ} {s t : System} → Step n s t → Bool
is_alloc (allocates i size mem lt h e) = true
is_alloc _ = false

set-KeptAll :
    (r : Region) (k : ℕ) (seg seg' : Segment)
    → segment_at r k ≡ done seg
    → Kept seg seg'
    → KeptAll r (set_segment r k seg')
unfolding segment_at
set-KeptAll r k seg seg' e kept i j = ground (arith, kept j)

-- A call that leaves and does not end the epoch is not that of the last transaction.
not_last :
    (b b' : Batcher)
    → b' ≡ batcher_left b
    → b'.cur_epoch ≡ b.cur_epoch
    → is_pos b.n_remaining 1 ≡ false
not_last b b' e same = ground arith

within_epoch :
    {n : ℕ} {s t : System} (st : Step n s t)
    → Inv n s.region.batcher s.pc
    → is_alloc st ≡ false
    → t.region.batcher.cur_epoch ≡ s.region.batcher.cur_epoch
    → KeptAll s.region t.region
unfolding tm_end
within_epoch {n} {s} (begins i ro {r} lt h e) inv a same = tm_begin-KeptAll s.region r ro _ e
within_epoch {n} {s} (blocks i ro {r} lt h e) inv a same = tm_begin-KeptAll s.region r ro _ e
within_epoch {n} {s} (resumes i {ro} {r} {id} lt h e) inv a same =
    tm_begin_woken-KeptAll s.region r ro id e
within_epoch {n} {s} (reads i k ro idx target at {id} {seg} {seg'} {target'} lt h e f) inv a same =
    set-KeptAll s.region k seg seg' e (read_word-Kept seg seg' id ro idx target target' at _ f)
within_epoch {n} {s} (read_refused i k ro idx target at {id} {seg} {seg'} {target'} lt h e f) inv a
      same =
    set-KeptAll s.region k seg seg' e (read_word-Kept seg seg' id ro idx target target' at _ f)
within_epoch {n} {s} (writes i k idx source from {id} {seg} {seg'} lt h e f) inv a same =
    set-KeptAll s.region k seg seg' e (write_word-Kept seg seg' id idx source from _ f)
within_epoch {n} {s} (write_refused i k idx source from {id} {seg} {seg'} lt h e f) inv a same =
    set-KeptAll s.region k seg seg' e (write_word-Kept seg seg' id idx source from _ f)
within_epoch {n} {s} (allocates i size mem lt h e) inv a same = cc
within_epoch {n} {s} (frees i target {id} {r} lt h e) inv a same =
    tm_free-KeptAll s.region r id target e
within_epoch {n} {s} (free_aborts i target {id} {r} lt h e) inv a same =
    let b = tm_free_aborts-batcher s.region r id target inv.open_lock e in
    tm_free_aborts-KeptAll s.region r id target (not_last s.region.batcher r.batcher b same) e
within_epoch {n} {s} (aborts i {id} {r} lt h e) inv a same =
    let b = abort-batcher s.region r id false inv.open_lock e in
    abort-KeptAll s.region r id false (not_last s.region.batcher r.batcher b same) e
within_epoch {n} {s} (ends i {id} {r} lt h e) inv a same =
    let b = leave_batcher-batcher s.region r id true inv.open_lock e in
    leave-KeptAll s.region r id true (not_last s.region.batcher r.batcher b same) e

-- From a state that `n` threads reach, a step that does not end the epoch, and is no call of `tm_alloc`,
-- leaves the committed bytes of every word of every segment as they are, whatever the thread reads, writes,
-- frees or aborts.
pub epoch_snapshot :
    (n : ℕ) (s t : System)
    → Running n s
    → (st : Step n s t) → is_alloc st ≡ false
    → t.region.batcher.cur_epoch ≡ s.region.batcher.cur_epoch
    → (i j : ℕ) → committed_bytes (t.region.segments i) j ≡ committed_bytes (s.region.segments i) j
epoch_snapshot n s t run st a same = within_epoch st (Running-Inv run) a same

-- The thread whose step it is
abbrev pub mover : {n : ℕ} {s t : System} → Step n s t → ℕ
mover (begins i ro lt h e) = i
mover (blocks i ro lt h e) = i
mover (resumes i lt h e) = i
mover (reads i k ro idx target at lt h e f) = i
mover (read_refused i k ro idx target at lt h e f) = i
mover (writes i k idx source from lt h e f) = i
mover (write_refused i k idx source from lt h e f) = i
mover (allocates i size mem lt h e) = i
mover (frees i target lt h e) = i
mover (free_aborts i target lt h e) = i
mover (aborts i lt h e) = i
mover (ends i lt h e) = i

-- Running, or with an access that was refused
abbrev pub InTransaction : Pc → Type 0
InTransaction p = (id : ℕ) × ((p ≡ running id) ⊎ (p ≡ refused id))

-- Thread `i` goes from a transaction to outside, and no other thread is in one or woken up for one.
abbrev pub LeavesAlone : ℕ → (ℕ → Pc) → (ℕ → Pc) → ℕ → Type 0
LeavesAlone n pc pc' i =
    (i < n) × InTransaction (pc i) × (pc' i ≡ idle) × ((j : ℕ) → j < n → j ≢ i → active (pc j) ≡ 0)

leaver-LeavesAlone :
    (n : ℕ) (b b' : Batcher) (pc : ℕ → Pc) (i : ℕ)
    → Inv n b pc
    → i < n
    → InTransaction (pc i)
    → b' ≡ batcher_left b
    → b'.cur_epoch ≢ b.cur_epoch
    → LeavesAlone n pc (pc_left b pc i) i
leaver-LeavesAlone n b b' pc i inv lt (id, within) e differ =
    let act : active (pc i) ≡ 1 = ground arith in
    let one : total active n pc ≡ 1 = ground (arith, inv.remaining) in
    let gone = total-update active n pc i idle lt in
    let quiet : total active n (update pc i idle) ≡ 0 = omega arith in
    (
      lt,
      (id, within),
      ground arith,
      λ j h ne. ground (arith, weight-le-total active n (update pc i idle) j h),
    )

ends-LeavesAlone :
    {n : ℕ} {s t : System} (st : Step n s t)
    → Inv n s.region.batcher s.pc
    → t.region.batcher.cur_epoch ≢ s.region.batcher.cur_epoch
    → LeavesAlone n s.pc t.pc (mover st)
unfolding tm_end
ends-LeavesAlone {n} {s} (begins i ro {r} {id} lt h e) inv differ =
    let (p, q, b) = tm_begin-entered s.region r ro id inv.open_lock e in absurd (ground arith)
ends-LeavesAlone {n} {s} (blocks i ro {r} lt h e) inv differ =
    let (p, b) = tm_begin-waits s.region r ro inv.open_lock e in absurd (ground arith)
ends-LeavesAlone {n} {s} (resumes i {ro} {r} {id} lt h e) inv differ =
    let (p, b) = tm_begin_woken-batcher s.region r ro id inv.open_lock e in absurd (ground arith)
ends-LeavesAlone (reads i k ro idx target at lt h e f) inv differ = absurd (differ refl)
ends-LeavesAlone (read_refused i k ro idx target at lt h e f) inv differ = absurd (differ refl)
ends-LeavesAlone (writes i k idx source from lt h e f) inv differ = absurd (differ refl)
ends-LeavesAlone (write_refused i k idx source from lt h e f) inv differ = absurd (differ refl)
ends-LeavesAlone {n} {s} (allocates i size mem {id} {status} {r} {target} lt h e) inv differ =
    let b = tm_alloc-batcher mem s.region r size status target e in
    absurd (differ (ap (λ x. x.cur_epoch) b))
ends-LeavesAlone {n} {s} (frees i target {id} {r} lt h e) inv differ =
    let b = tm_free-batcher s.region r id target e in absurd (differ (ap (λ x. x.cur_epoch) b))
ends-LeavesAlone {n} {s} (free_aborts i target {id} {r} lt h e) inv differ =
    leaver-LeavesAlone n s.region.batcher r.batcher s.pc i inv lt (id, inl h)
      (tm_free_aborts-batcher s.region r id target inv.open_lock e) differ
ends-LeavesAlone {n} {s} (aborts i {id} {r} lt h e) inv differ =
    leaver-LeavesAlone n s.region.batcher r.batcher s.pc i inv lt (id, inr h)
      (abort-batcher s.region r id false inv.open_lock e) differ
ends-LeavesAlone {n} {s} (ends i {id} {r} lt h e) inv differ =
    leaver-LeavesAlone n s.region.batcher r.batcher s.pc i inv lt (id, inl h)
      (leave_batcher-batcher s.region r id true inv.open_lock e) differ

-- From a state that `n` threads reach, a step that ends the epoch is that of a thread which is in a
-- transaction and behind the step is outside, and no other thread is in a transaction, or woken up for one.
pub epoch_ends_alone :
    (n : ℕ) (s t : System)
    → Running n s
    → (st : Step n s t) → t.region.batcher.cur_epoch ≢ s.region.batcher.cur_epoch
    → (mover st < n)
      × InTransaction (s.pc (mover st))
      × (t.pc (mover st) ≡ idle)
      × ((j : ℕ) → j < n → j ≢ mover st → active (s.pc j) ≡ 0)
epoch_ends_alone n s t run st differ = ends-LeavesAlone st (Running-Inv run) differ
