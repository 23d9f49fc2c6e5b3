-- ===== src/System/Safety.antt =====
-- What holds in every state that threads reach from a region that `tm_create` made.
use cs_453_concurrent_algori.Common.{ℕ, ◌≤◌, ◌<◌, ◌≡◌, ◌≢◌, Bool, some, done, arith, dec_lt}
use cs_453_concurrent_algori.Common.Counting.{total, total_pos, weight-le-total}
use cs_453_concurrent_algori.Common.Int.{pos}
use cs_453_concurrent_algori.Segment.{none_tx}
use cs_453_concurrent_algori.Region.{Region, max_num_segments}
use cs_453_concurrent_algori.Tm.{CreateMemory, tm_create}
use cs_453_concurrent_algori.System.{idle, waiting, System, Reach, start, later}
use cs_453_concurrent_algori.System.Invariant.{Inv}
use cs_453_concurrent_algori.System.Invariant.Counts.{active, asleep, id_of}
use cs_453_concurrent_algori.System.Steps.{Step-Inv, tm_create-fresh, fresh-Inv}

Reach-Inv :
    {n : ℕ} {r : Region} {s : System}
    → Inv n r.batcher (λ _. idle)
    → Reach n r s
    → Inv n s.region.batcher s.pc
Reach-Inv inv start = inv
Reach-Inv inv (later q st) = Step-Inv st (Reach-Inv inv q)

-- A region of `tm_create`, and a state that `n` threads reach from it
pub record Running (n : ℕ) (s : System) : Type 0 where
  pub mem : CreateMemory
  pub raw : Region
  pub first : Region
  pub size : ℕ
  pub align : ℕ
  pub created : tm_create mem raw size align ≡ done (some first)
  pub reached : Reach n first s

pub Running-Inv : {n : ℕ} {s : System} → Running n s → Inv n s.region.batcher s.pc
Running-Inv {n} {s} run =
    Reach-Inv
      (rw (tm_create-fresh run.mem run.raw run.first run.size run.align run.created) (fresh-Inv n))
      run.reached

-- In every state that `n` threads reach from a region of `tm_create`, no two of them are in transactions of
-- one id, whether running or about to abort.
pub unique_ids :
    (n : ℕ) (s : System)
    → Running n s
    → (i j id : ℕ) → i < n
    → j < n
    → id_of (s.pc i) ≡ some id
    → id_of (s.pc j) ≡ some id
    → i ≡ j
unique_ids n s run = (Running-Inv run).unique

-- In every state that at most `MAX_NUM_SEGMENTS` threads reach from a region of `tm_create`, the id of every transaction is an index of `is_ro_flags`, below
-- the number of threads, and not the value that stands for no transaction.
pub id_in_range :
    (n : ℕ) (s : System)
    → Running n s
    → n ≤ max_num_segments
    → (i id : ℕ) → i < n
    → id_of (s.pc i) ≡ some id
    → (id < n) × (id < max_num_segments) × (id ≢ none_tx)
id_in_range n s run few i id h e =
    let inv = Running-Inv run in
    let small : id < n = omega (arith, inv.below i id h e, inv.given, inv.bounded) in
    (small, omega arith, omega arith)

-- In every state that `n` threads reach from a region of `tm_create`, the counters of the batcher are exact:
-- `n_remaining` is the number of threads in the epoch, those that
-- were woken and have not run yet included, and `n_blocked` the number of those that wait.
pub counters_exact :
    (n : ℕ) (s : System)
    → Running n s
    → (s.region.batcher.n_remaining ≡ pos (total active n s.pc))
      × (s.region.batcher.n_blocked ≡ total asleep n s.pc)
counters_exact n s run = let inv = Running-Inv run in (inv.remaining, inv.blocked)

-- In every state that `n` threads reach from a region of `tm_create`, while a thread waits for the next
-- epoch some thread is in the current one: in a transaction, or woken and about to run.
pub waiting_not_alone :
    (n : ℕ) (s : System)
    → Running n s
    → (i : ℕ) (ro : Bool) → i < n
    → s.pc i ≡ waiting ro
    → (j : ℕ) × (j < n) × (0 < active (s.pc j))
waiting_not_alone n s run i ro h e = elim (dec_lt 0 (total active n s.pc)) [
  | yes p ↦ total_pos active n s.pc p
  | no p ↦
      let inv = Running-Inv run in
      let counted = weight-le-total asleep n s.pc i h in
      let nobody = (inv.empty (omega arith)).1 in absurd (ground arith)
]
