-- ===== src/System.antt =====
-- Threads that run transactions over one region, interleaved in any order. A step is one thread's call
-- of `tm_begin` (in two halves if it waits), `tm_end`, `tm_alloc` or `tm_free`, the access to one word of
-- `tm_read` or `tm_write`, or the abort behind an access that was refused.
pub mod Batch
pub mod Invariant
pub mod Steps
pub mod Safety
pub mod Isolation
use cs_453_concurrent_algori.Common.{
  ℕ, ◌<◌, ◌≡◌, Bool, true, false, if◌then◌else◌, update, Option, done,
}
use cs_453_concurrent_algori.Common.Int.{is_pos}
use cs_453_concurrent_algori.Memory.{Bytes}
use cs_453_concurrent_algori.Segment.{Segment}
use cs_453_concurrent_algori.Word.{success_alloc, abort_alloc, read_word, write_word}
use cs_453_concurrent_algori.Batcher.{Batcher, entered, waits}
use cs_453_concurrent_algori.Region.{Region, segment_at, set_segment}
use cs_453_concurrent_algori.Epoch.{abort_transaction_tx}
use cs_453_concurrent_algori.Tm.{AllocMemory, tm_begin, tm_begin_woken, tm_end, tm_alloc, tm_free}

-- Where a thread stands: outside of transactions; in the wait of `enter_batcher`; woken from it; in a
-- transaction; in a transaction one of whose accesses was refused. The flag is `is_ro`.
pub data Pc : Type 0 where
  idle : Pc
  waiting : Bool → Pc
  woken : Bool → Pc
  running : ℕ → Pc
  refused : ℕ → Pc

-- `pthread_cond_broadcast` wakes every thread that waits.
abbrev pub wake : Pc → Pc
wake (waiting ro) = woken ro
wake idle = idle
wake (woken ro) = woken ro
wake (running id) = running id
wake (refused id) = refused id

pub record System : Type 0 where
  pub region : Region
  pub pc : ℕ → Pc

-- The threads when thread `i` leaves the batcher: the last one of an epoch broadcasts.
abbrev pub pc_left : Batcher → (ℕ → Pc) → ℕ → ℕ → Pc
pc_left b pc i =
    if is_pos b.n_remaining 1 then (λ j. wake (update pc i idle j)) else update pc i idle

module _ (n : ℕ) where
  -- A step of one of the threads below `n`
  pub data Step (s : System) : System → Type 0 where
    begins :
        (i : ℕ) (ro : Bool) {r : Region} {id : ℕ}
        → i < n
        → s.pc i ≡ idle
        → tm_begin s.region ro ≡ done (r, entered id)
        → Step s (record { region = r; pc = update s.pc i (running id) })
    blocks :
        (i : ℕ) (ro : Bool) {r : Region}
        → i < n
        → s.pc i ≡ idle
        → tm_begin s.region ro ≡ done (r, waits)
        → Step s (record { region = r; pc = update s.pc i (waiting ro) })
    resumes :
        (i : ℕ) {ro : Bool} {r : Region} {id : ℕ}
        → i < n
        → s.pc i ≡ woken ro
        → tm_begin_woken s.region ro ≡ done (r, id)
        → Step s (record { region = r; pc = update s.pc i (running id) })
    reads :
        (i k : ℕ) (ro : Bool) (idx : ℕ) (target : Bytes) (at : ℕ) {id : ℕ} {seg seg' : Segment}
        {target' : Bytes}
        → i < n
        → s.pc i ≡ running id
        → segment_at s.region k ≡ done seg
        → read_word seg id ro idx target at ≡ done (seg', target', success_alloc)
        → Step s (record { region = set_segment s.region k seg'; pc = s.pc })
    read_refused :
        (i k : ℕ) (ro : Bool) (idx : ℕ) (target : Bytes) (at : ℕ) {id : ℕ} {seg seg' : Segment}
        {target' : Bytes}
        → i < n
        → s.pc i ≡ running id
        → segment_at s.region k ≡ done seg
        → read_word seg id ro idx target at ≡ done (seg', target', abort_alloc)
        → Step s (record { region = set_segment s.region k seg'; pc = update s.pc i (refused id) })
    writes :
        (i k idx : ℕ) (source : Bytes) (from : ℕ) {id : ℕ} {seg seg' : Segment}
        → i < n
        → s.pc i ≡ running id
        → segment_at s.region k ≡ done seg
        → write_word seg id idx source from ≡ done (seg', success_alloc)
        → Step s (record { region = set_segment s.region k seg'; pc = s.pc })
    write_refused :
        (i k idx : ℕ) (source : Bytes) (from : ℕ) {id : ℕ} {seg seg' : Segment}
        → i < n
        → s.pc i ≡ running id
        → segment_at s.region k ≡ done seg
        → write_word seg id idx source from ≡ done (seg', abort_alloc)
        → Step s (record { region = set_segment s.region k seg'; pc = update s.pc i (refused id) })
    allocates :
        (i size : ℕ) (mem : AllocMemory) {id status : ℕ} {r : Region} {target : Option ℕ}
        → i < n
        → s.pc i ≡ running id
        → tm_alloc mem s.region size ≡ done (r, status, target)
        → Step s (record { region = r; pc = s.pc })
    frees :
        (i target : ℕ) {id : ℕ} {r : Region}
        → i < n
        → s.pc i ≡ running id
        → tm_free s.region id target ≡ done (r, true)
        → Step s (record { region = r; pc = s.pc })
    free_aborts :
        (i target : ℕ) {id : ℕ} {r : Region}
        → i < n
        → s.pc i ≡ running id
        → tm_free s.region id target ≡ done (r, false)
        → Step s (record { region = r; pc = pc_left s.region.batcher s.pc i })
    aborts :
        (i : ℕ) {id : ℕ} {r : Region}
        → i < n
        → s.pc i ≡ refused id
        → abort_transaction_tx s.region id ≡ done (r, false)
        → Step s (record { region = r; pc = pc_left s.region.batcher s.pc i })
    ends :
        (i : ℕ) {id : ℕ} {r : Region}
        → i < n
        → s.pc i ≡ running id
        → tm_end s.region id ≡ done (r, true)
        → Step s (record { region = r; pc = pc_left s.region.batcher s.pc i })

  -- The states that the threads reach from a region, none of them in a transaction
  pub data Reach (r : Region) : System → Type 0 where
    start : Reach r (record { region = r; pc = λ _. idle })
    later : {s t : System} → Reach r s → Step s t → Reach r t
