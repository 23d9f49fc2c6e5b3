-- ===== src/System/Steps.antt =====
-- Every step of the system keeps the invariant of the batcher, which holds for a new region.
use cs_453_concurrent_algori.Common.{ℕ, ◌≡◌, true, false, refl, some, done, arith}
use cs_453_concurrent_algori.Common.Counting.{total_zero}
use cs_453_concurrent_algori.Common.Int.{pos}
use cs_453_concurrent_algori.Batcher.{Batcher}
use cs_453_concurrent_algori.Region.{Region}
use cs_453_concurrent_algori.Tm.{CreateMemory, tm_create}
use cs_453_concurrent_algori.System.{
  idle, refused, System, Step, begins, blocks, resumes, reads, read_refused, writes, write_refused,
  allocates, frees, free_aborts, aborts, ends,
}
use cs_453_concurrent_algori.System.Batch.{
  tm_begin-entered, tm_begin-waits, tm_begin_woken-batcher, tm_alloc-batcher, tm_free-batcher,
  tm_free_aborts-batcher, abort-batcher, leave_batcher-batcher,
}
use cs_453_concurrent_algori.System.Invariant.{Inv, moved-Inv}
use cs_453_concurrent_algori.System.Invariant.Counts.{active, asleep, awake}
use cs_453_concurrent_algori.System.Invariant.Entering.{begins-Inv, blocks-Inv, resumes-Inv}
use cs_453_concurrent_algori.System.Invariant.Leaving.{leaves-Inv}
use cs_453_concurrent_algori.Tm.{tm_end}

abbrev InvOf : ℕ → System → Type 0
InvOf n s = Inv n s.region.batcher s.pc

pub Step-Inv : {n : ℕ} {s t : System} → Step n s t → InvOf n s → InvOf n t
unfolding tm_end
Step-Inv {n} {s} (begins i ro {r} {id} lt h e) inv =
    let (empty, is_next, b) = tm_begin-entered s.region r ro id inv.open_lock e in
    rw (b, is_next) (begins-Inv inv i lt h empty)
Step-Inv {n} {s} (blocks i ro {r} lt h e) inv =
    let (busy, b) = tm_begin-waits s.region r ro inv.open_lock e in
    rw b (blocks-Inv inv i lt ro h busy)
Step-Inv {n} {s} (resumes i {ro} {r} {id} lt h e) inv =
    let (is_next, b) = tm_begin_woken-batcher s.region r ro id inv.open_lock e in
    rw (b, is_next) (resumes-Inv inv i lt ro h)
Step-Inv (reads i k ro idx target at lt h e f) inv = inv
Step-Inv (read_refused i k ro idx target at {id} lt h e f) inv =
    moved-Inv inv i lt (refused id) (rw h) (rw h) (rw h) (rw h)
Step-Inv (writes i k idx source from lt h e f) inv = inv
Step-Inv (write_refused i k idx source from {id} lt h e f) inv =
    moved-Inv inv i lt (refused id) (rw h) (rw h) (rw h) (rw h)
Step-Inv {n} {s} (allocates i size mem {id} {status} {r} {target} lt h e) inv =
    rw (tm_alloc-batcher mem s.region r size status target e) inv
Step-Inv {n} {s} (frees i target {id} {r} lt h e) inv =
    rw (tm_free-batcher s.region r id target e) inv
Step-Inv {n} {s} (free_aborts i target {id} {r} lt h e) inv =
    rw (tm_free_aborts-batcher s.region r id target inv.open_lock e)
      (leaves-Inv inv i lt (rw h) (rw h) (rw h))
Step-Inv {n} {s} (aborts i {id} {r} lt h e) inv =
    rw (abort-batcher s.region r id false inv.open_lock e)
      (leaves-Inv inv i lt (rw h) (rw h) (rw h))
Step-Inv {n} {s} (ends i {id} {r} lt h e) inv =
    rw (leave_batcher-batcher s.region r id true inv.open_lock e)
      (leaves-Inv inv i lt (rw h) (rw h) (rw h))

-- The batcher of a new region
abbrev pub fresh : Batcher
fresh = record {
  tx_id_generator = 0;
  cur_epoch = 0;
  n_remaining = pos 0;
  n_blocked = 0;
  n_in_epoch = 0;
  lock = record { mutex = false; all_tx_left_batcher = 0 };
}

pub tm_create-fresh :
    (mem : CreateMemory) (raw r : Region) (size align : ℕ)
    → tm_create mem raw size align ≡ done (some r)
    → r.batcher ≡ fresh
unfolding tm_create
tm_create-fresh mem raw r size align e = ground arith

pub fresh-Inv : (n : ℕ) → Inv n fresh (λ _. idle)
fresh-Inv n = record {
  open_lock = refl;
  remaining = rw (total_zero active n (λ _. idle) (λ j h. refl));
  blocked = rw (total_zero asleep n (λ _. idle) (λ j h. refl));
  sleepers = refl;
  given = rw (total_zero awake n (λ _. idle) (λ j h. refl));
  empty = λ z. (refl, total_zero asleep n (λ _. idle) (λ j h. refl));
  bounded = omega arith;
  below = λ i id h q. cc;
  unique = λ i j id h k q r. cc;
}
