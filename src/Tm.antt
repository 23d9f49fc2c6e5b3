-- ===== src/Tm.antt =====
-- 275085/tm.c, the interface of the transactional memory.
pub mod Alloc
pub mod Free
pub mod Reuse
pub mod Words
pub mod ReadBack
use cs_453_concurrent_algori.Common.{
  ℕ, zero, suc, ◌+◌, ◌/◌, ◌%◌, ◌^◌, Bool, true, false, ◌&&◌, ◌||◌, not, ◌==◌, ltb, leb,
  if◌then◌else◌, update, Option, none, some, Outcome, done, undefined, ◌>>=◌, ◌>>◌, defined_if,
  for_range,
}
use cs_453_concurrent_algori.Common.Int.{ℤ, pos, negsuc, is_minus_one}
use cs_453_concurrent_algori.Lock.{lock_init, lock_cleanup, lock_acquire, lock_release}
use cs_453_concurrent_algori.Memory.{Bytes}
use cs_453_concurrent_algori.Stack.{pop}
use cs_453_concurrent_algori.Address.{
  get_virt_start_addr, get_virt_addr, extract_seg_id, extract_word_index,
}
use cs_453_concurrent_algori.Segment.{
  Segment, SegmentMemory, none_tx, init_segment, segment_destroy,
}
use cs_453_concurrent_algori.Word.{success_alloc, abort_alloc, nomem_alloc, read_word, write_word}
use cs_453_concurrent_algori.Batcher.{
  Batcher, Entry, entered, waits, init_batcher, enter_batcher, enter_batcher_woken,
}
use cs_453_concurrent_algori.Region.{Region, max_num_segments, segment_at, set_segment}
use cs_453_concurrent_algori.Epoch.{leave_batcher, abort_transaction_tx}

abbrev pub n_init_segments : ℕ
n_init_segments = 128

-- Which of the calls of `tm_create` that can fail succeed.
pub record CreateMemory : Type 0 where
  pub region : Bool
  pub segments : Bool
  pub global_mutex : Bool
  pub global_cond : Bool
  pub batcher_mutex : Bool
  pub batcher_cond : Bool
  pub segment : SegmentMemory

-- `raw` is what the block for the region holds when `malloc` returns it. `none` is `invalid_shared`.
-- Both operands of the source's `|` are evaluated.
unfoldable pub tm_create : CreateMemory → Region → ℕ → ℕ → Outcome (Option Region)
unfolding lock_init lock_cleanup init_batcher get_virt_start_addr
tm_create mem raw size align =
    if not mem.region || not mem.segments
    then done none
    else (let (l, lock_ok) = lock_init mem.global_mutex mem.global_cond in
        if not lock_ok
        then done none
        else (let (b, batcher_ok) = init_batcher mem.batcher_mutex mem.batcher_cond raw.batcher in
            init_segment mem.segment (raw.segments 0) align size >>= λ (seg, segment_ok).
            (if not batcher_ok || not segment_ok
              then (lock_cleanup l >> done none)
              else done (
                  some (record raw {
                    addr = get_virt_start_addr;
                    n_segments = 1;
                    segments = update raw.segments 0 seg;
                    capacity = n_init_segments;
                    global_lock = l;
                    batcher = b;
                    align = align;
                    seg_size = size;
                    free_seg_indices = record raw.free_seg_indices { top = negsuc 0 };
                  })))))

unfoldable pub tm_destroy : Region → Outcome (Unit {0})
unfolding segment_at segment_destroy lock_cleanup
tm_destroy r =
    for_range r.n_segments 0 (λ i u. segment_at r i >>= segment_destroy) tt
    >> lock_cleanup r.batcher.lock
    >> lock_cleanup r.global_lock

unfoldable pub tm_start : Region → ℕ
tm_start r = r.addr

unfoldable pub tm_size : Region → ℕ
tm_size r = r.seg_size

unfoldable pub tm_align : Region → ℕ
tm_align r = r.align

abbrev pub set_ro_flag : Region → ℕ → Bool → Outcome Region
set_ro_flag r id is_ro =
    defined_if (ltb id max_num_segments)
    >> done (record r { is_ro_flags = update r.is_ro_flags id is_ro })

-- `tm_begin` up to its return or the wait in `enter_batcher`
unfoldable pub tm_begin : Region → Bool → Outcome (Region × Entry)
unfolding enter_batcher
tm_begin r is_ro = enter_batcher r.batcher >>= λ (b, e).
    (let r1 = record r { batcher = b } in
      elim e [
        | entered id ↦ set_ro_flag r1 id is_ro >>= λ r2. done (r2, entered id)
        | waits ↦ done (r1, waits)
      ])

-- `tm_begin` from that wait on
unfoldable pub tm_begin_woken : Region → Bool → Outcome (Region × ℕ)
unfolding enter_batcher_woken
tm_begin_woken r is_ro = enter_batcher_woken r.batcher >>= λ (b, id).
    set_ro_flag (record r { batcher = b }) id is_ro >>= λ r1. done (r1, id)

unfoldable pub tm_end : Region → ℕ → Outcome (Region × Bool)
tm_end r tx = leave_batcher r tx

-- `int n_words = size / align`, as a number of rounds: an `int` that comes out negative gives none.
abbrev pub int_rounds : ℕ → ℕ
int_rounds n = if ltb (n % 2 ^ 32) (2 ^ 31) then n % 2 ^ 32 else 0

-- The loop of `tm_read`. The flag says whether it ran to its end; if not, a word was refused.
unfoldable pub read_words :
    ℕ → Segment → ℕ → Bool → ℕ → Bytes → ℕ → Outcome (Segment × Bytes × Bool)
read_words zero seg tx ro idx target at = done (seg, target, true)
read_words (suc n) seg tx ro idx target at =
    read_word seg tx ro idx target at >>= λ (seg1, target1, status).
    (if status == abort_alloc
      then done (seg1, target1, false)
      else read_words n seg1 tx ro (suc idx) target1 (at + seg.align))

unfoldable pub tm_read : Region → ℕ → ℕ → ℕ → Bytes → ℕ → Outcome (Region × Bytes × Bool)
unfolding segment_at extract_seg_id extract_word_index
tm_read r tx source size target at =
    (let seg_id = extract_seg_id source in
      defined_if (not (r.align == 0) && ltb tx max_num_segments)
      >> (segment_at r seg_id >>= λ seg.
          defined_if (not (seg.align == 0))
          >> (read_words (int_rounds (size / r.align)) seg tx (r.is_ro_flags tx)
                (extract_word_index source seg.align) target at
              >>= λ (seg1, target1, complete).
                  (let r1 = set_segment r seg_id seg1 in
                    if complete
                    then done (r1, target1, true)
                    else (abort_transaction_tx r1 tx >>= λ (r2, result).
                        done (r2, target1, result))))))

-- The loop of `tm_write`. The source is a pointer to `void`, so `word_source++` moves it by one byte.
unfoldable pub write_words : ℕ → Segment → ℕ → ℕ → Bytes → ℕ → Outcome (Segment × Bool)
write_words zero seg tx idx source from = done (seg, true)
write_words (suc n) seg tx idx source from = write_word seg tx idx source from >>= λ (seg1, status).
    (if status == abort_alloc
      then done (seg1, false)
      else write_words n seg1 tx (suc idx) source (suc from))

unfoldable pub tm_write : Region → ℕ → Bytes → ℕ → ℕ → ℕ → Outcome (Region × Bool)
unfolding segment_at extract_seg_id extract_word_index
tm_write r tx source from size target =
    (let seg_id = extract_seg_id target in
      defined_if (not (r.align == 0))
      >> (segment_at r seg_id >>= λ seg.
          defined_if (not (seg.align == 0))
          >> (write_words (int_rounds (size / r.align)) seg tx (extract_word_index target seg.align)
                source from
              >>= λ (seg1, complete).
                  (let r1 = set_segment r seg_id seg1 in
                    if complete then done (r1, true) else abort_transaction_tx r1 tx))))

-- A failed `realloc` leaves a null pointer in `segments`.
unfoldable pub allocate_more_segments : Bool → Region → Region × Bool
allocate_more_segments realloc_ok r =
    if leb n_init_segments r.n_segments
    then (if realloc_ok
        then (record r { capacity = r.n_segments }, true)
        else (record r { capacity = 0 }, false))
    else (r, true)

-- Which of the calls of `tm_alloc` that can fail succeed.
pub record AllocMemory : Type 0 where
  pub realloc : Bool
  pub segment : SegmentMemory

-- The result is an index, -1, or `nomem_alloc`.
unfoldable pub add_segment : AllocMemory → Region → ℕ → Outcome (Region × ℤ)
unfolding allocate_more_segments
add_segment mem r size =
    (let idx = r.n_segments in
      let (r1, room) =
        allocate_more_segments mem.realloc (record r { n_segments = suc r.n_segments }) in
      if not room
      then done (r1, negsuc 0)
      else defined_if (ltb idx r1.capacity)
        >> (init_segment mem.segment (r1.segments idx) r1.align size >>= λ (seg, ok).
            (let r2 = set_segment r1 idx seg in
              if not ok then done (r2, pos nomem_alloc) else done (r2, pos idx))))

-- The end of `tm_alloc`. A negative index that is not -1 is never on the stack of indices.
abbrev pub return_segment : Region → ℤ → Outcome (Region × ℕ × Option ℕ)
return_segment r (pos i) = lock_release r.global_lock >>= λ l.
    done (record r { global_lock = l }, success_alloc, some (get_virt_addr i))
return_segment r (negsuc i) = undefined

-- An index from the stack is used again.
unfoldable pub reuse_segment : AllocMemory → Region → ℤ → ℕ → Outcome (Region × ℕ × Option ℕ)
unfolding segment_at lock_release
reuse_segment mem r (pos i) size = segment_at r i >>= λ old.
    init_segment mem.segment old r.align size >>= λ (seg, ok).
    (if not ok
      then done (set_segment r i seg, nomem_alloc, none)
      else return_segment (set_segment r i seg) (pos i))
reuse_segment mem r (negsuc i) size = undefined

-- The region, the status, and what was written to `*target`
unfoldable pub tm_alloc : AllocMemory → Region → ℕ → Outcome (Region × ℕ × Option ℕ)
unfolding lock_acquire lock_release pop add_segment reuse_segment
tm_alloc mem r size = lock_acquire r.global_lock >>= λ l. pop r.free_seg_indices >>= λ (st, index).
    (let r1 = record r { global_lock = l; free_seg_indices = st } in
      if is_minus_one index
      then (add_segment mem r1 size >>= λ (r2, index2).
          (if is_minus_one index2 then done (r2, nomem_alloc, none) else return_segment r2 index2))
      else reuse_segment mem r1 index size)

-- Behind the branch for a segment that another call deregistered comes a second `lock_release`.
unfoldable pub tm_free : Region → ℕ → ℕ → Outcome (Region × Bool)
unfolding lock_acquire lock_release segment_at extract_seg_id
tm_free r tx target =
    (let i = extract_seg_id target in
      lock_acquire r.global_lock >>= λ l. segment_at r i >>= λ seg.
      (if seg.deregistered == none_tx
        then (lock_release l >>= λ l2. done (
          record (set_segment r i (record seg { deregistered = tx })) { global_lock = l2 },
          true,
        ))
        else (lock_release l >>= λ l2.
            (let r1 = record r { global_lock = l2 } in
              if not (seg.deregistered == tx)
              then abort_transaction_tx r1 tx
              else (lock_release r1.global_lock >>= λ l3.
                  done (record r1 { global_lock = l3 }, true))))))
