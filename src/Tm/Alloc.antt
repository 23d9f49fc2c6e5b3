-- ===== src/Tm/Alloc.antt =====
-- `tm_alloc` on its branches.
use cs_453_concurrent_algori.Common.{
  ℕ, suc, ◌≤◌, ◌<◌, ◌≡◌, ◌≢◌, refl, true, false, List, [], ◌∷◌, update, Option, some, done, blocked,
  arith, leb, if◌then◌else◌,
}
use cs_453_concurrent_algori.Common.Int.{ℤ, pos, is_minus_one}
use cs_453_concurrent_algori.Stack.{max_stack_size}
use cs_453_concurrent_algori.Stack.Laws.{IsStack, length, pop-IsStack}
use cs_453_concurrent_algori.Address.{get_virt_addr}
use cs_453_concurrent_algori.Segment.{usable, Segment}
use cs_453_concurrent_algori.Segment.Init.{Blank, all_given, init_segment-Blank}
use cs_453_concurrent_algori.Segment.Failing.{init_segment_fails}
use cs_453_concurrent_algori.Word.{success_alloc, nomem_alloc}
use cs_453_concurrent_algori.Region.{Region}
use cs_453_concurrent_algori.Tm.{AllocMemory, n_init_segments, tm_alloc, tm_free}

-- Where a call starts: the block of segments is as large as the code keeps it, and no thread is in a call
-- under the global lock.
pub record CanAlloc (r : Region) : Type 0 where
  pub fits : r.n_segments ≤ r.capacity
  pub initial : n_init_segments ≤ r.capacity
  pub global : r.global_lock.mutex ≡ false
  pub aligned : r.align ≢ 0

-- The region behind a call that made a new segment
abbrev grown : Region → Segment → Region
grown r seg = record r {
  n_segments = suc r.n_segments;
  segments = update r.segments r.n_segments seg;
  capacity = if leb n_init_segments (suc r.n_segments) then suc r.n_segments else r.capacity;
}

-- With no free index, memory for every block, the global lock free and an alignment that is not zero, a
-- call makes a segment of its own behind the others and returns its address. The segment is blank,
-- every other one is as it was, the block of segments has room for all, and the lock is free.
pub tm_alloc_new :
    (mem : AllocMemory) (r : Region) (size : ℕ)
    → CanAlloc r
    → IsStack r.free_seg_indices []
    → mem.realloc ≡ true
    → all_given mem.segment ≡ true
    → (r' : Region) × (tm_alloc mem r size
        ≡ done (r', success_alloc, some (get_virt_addr r.n_segments)))
      × (r'.n_segments ≡ suc r.n_segments)
      × Blank (r'.segments r.n_segments) r.align size
      × ((j : ℕ) → j ≢ r.n_segments → r'.segments j ≡ r.segments j)
      × CanAlloc r'
unfolding tm_alloc
tm_alloc_new mem r size can empty realloc given =
    let (seg, run, blank) =
      init_segment-Blank mem.segment (r.segments r.n_segments) r.align size can.aligned given in
    (
      grown r seg,
      ground (arith, can.fits, can.initial, can.global, empty.height, run),
      refl,
      ground (arith, blank),
      λ j h. ground arith,
      record {
        fits = ground (arith, can.fits);
        initial = ground (arith, can.initial);
        global = can.global;
        aligned = can.aligned;
      },
    )

-- With the index of a segment on the stack, memory for its arrays, the global lock free and an alignment
-- that is not zero, a call takes that segment again: it returns the segment's address, the
-- segment is blank, and every other segment and the rest of the stack are as they were.
pub tm_alloc_again :
    (mem : AllocMemory) (r : Region) (size i : ℕ) (rest : List ℤ)
    → CanAlloc r
    → IsStack r.free_seg_indices (pos i ∷ rest)
    → length rest < max_stack_size
    → i < r.n_segments
    → all_given mem.segment ≡ true
    → (r' : Region) × (tm_alloc mem r size ≡ done (r', success_alloc, some (get_virt_addr i)))
      × (r'.n_segments ≡ r.n_segments)
      × Blank (r'.segments i) r.align size
      × ((j : ℕ) → j ≢ i → r'.segments j ≡ r.segments j)
      × IsStack r'.free_seg_indices rest
      × CanAlloc r'
unfolding tm_alloc
tm_alloc_again mem r size i rest can stack room inside given =
    let (seg, run, blank) =
      init_segment-Blank mem.segment (r.segments i) r.align size can.aligned given in
    let (st, popped, below) = pop-IsStack r.free_seg_indices (pos i ∷ rest) stack (omega arith) in
    let not_empty : is_minus_one r.free_seg_indices.top ≡ false = ground (arith, stack.height) in
    (
      record r { segments = update r.segments i seg; free_seg_indices = st },
      ground (arith, can.fits, can.global, run, popped),
      refl,
      ground (arith, blank),
      λ j h. ground arith,
      below,
      record { fits = can.fits; initial = can.initial; global = can.global; aligned = can.aligned },
    )

nomem_holds_lock :
    (mem : AllocMemory) (r r' : Region) (size : ℕ) (target : Option ℕ)
    → tm_alloc mem r size ≡ done (r', nomem_alloc, target)
    → r'.global_lock.mutex ≡ true
unfolding tm_alloc
nomem_holds_lock mem r r' size target e = ground arith

blocked_behind :
    (mem : AllocMemory) (r : Region) (size : ℕ)
    → r.global_lock.mutex ≡ true
    → tm_alloc mem r size ≡ blocked
unfolding tm_alloc
blocked_behind mem r size e = ground arith

free_blocked_behind :
    (r : Region) (tx target : ℕ) → r.global_lock.mutex ≡ true → tm_free r tx target ≡ blocked
unfolding tm_free
free_blocked_behind r tx target e = ground arith

-- A call that returns `nomem_alloc` returns with the global lock held: in the region it leaves
-- every call of `tm_alloc` and of `tm_free` is blocked.
pub nomem_blocks :
    (mem : AllocMemory) (r r' : Region) (size : ℕ) (target : Option ℕ)
    → tm_alloc mem r size ≡ done (r', nomem_alloc, target)
    → ((mem2 : AllocMemory) (size2 : ℕ) → tm_alloc mem2 r' size2 ≡ blocked)
      × ((tx addr : ℕ) → tm_free r' tx addr ≡ blocked)
nomem_blocks mem r r' size target e =
    let held = nomem_holds_lock mem r r' size target e in
    (λ m s. blocked_behind m r' s held, λ tx a. free_blocked_behind r' tx a held)

-- With no free index and the global lock free, where a new segment gets no memory for its arrays, `add_segment` returns the code of `nomem_alloc`, 2,
-- and the caller takes it for an index: the call succeeds, with the address of segment 2, whichever
-- segment that is. The new segment is counted, and not all of its pointers are to blocks.
pub tm_alloc_wrong_segment :
    (mem : AllocMemory) (r : Region) (size : ℕ)
    → CanAlloc r
    → IsStack r.free_seg_indices []
    → mem.realloc ≡ true
    → all_given mem.segment ≡ false
    → (r' : Region) × (tm_alloc mem r size ≡ done (r', success_alloc, some (get_virt_addr 2)))
      × (r'.n_segments ≡ suc r.n_segments)
      × (usable (r'.segments r.n_segments) ≡ false)
unfolding tm_alloc
tm_alloc_wrong_segment mem r size can empty realloc bad =
    let (seg, run, pointers, gone, words, registered, locks, second_copy, controls) =
      init_segment_fails mem.segment (r.segments r.n_segments) r.align size can.aligned bad in
    (
      grown r seg,
      ground (arith, can.fits, can.initial, can.global, empty.height, run),
      refl,
      ground (arith, gone),
    )
