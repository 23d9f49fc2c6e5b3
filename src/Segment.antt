-- ===== src/Segment.antt =====
-- 275085/segment.c and segment.h: a segment of shared memory, two copies of each word with the control
-- structure of the word.
pub mod Init
pub mod Failing
use cs_453_concurrent_algori.Common.{
  ℕ, ◌*◌, ◌/◌, ◌%◌, ◌^◌, Bool, true, false, ◌&&◌, not, ◌==◌, ltb, if◌then◌else◌, update, Outcome,
  done, undefined, ◌>>=◌, ◌>>◌, for_range,
}
use cs_453_concurrent_algori.Lock.{Lock, lock_init, lock_cleanup}
use cs_453_concurrent_algori.Memory.{Bytes, zeroed}

-- `NONE`: no transaction
abbrev pub none_tx : ℕ
none_tx = 0xFFFFF

-- `control_t`. `word_is_ro` is false where the first copy is the one to read.
pub record Control : Type 0 where
  pub word_is_ro : Bool
  pub access_set : ℕ
  pub word_has_been_written : Bool

-- A `control_t` of zero bytes, as `calloc` returns it.
abbrev pub zero_control : Control
zero_control = record { word_is_ro = false; access_set = 0; word_has_been_written = false }

-- What a pointer of a segment is: null, one that may not be followed, since its block was freed or it was
-- never set, or one to a block.
pub data Pointer : Type 0 where
  null : Pointer
  invalid : Pointer
  block : Pointer

abbrev is_block : Pointer → Bool
is_block null = false
is_block invalid = false
is_block block = true

-- The pointers `words_array_A`, `words_array_B`, `control` and `control_lock`
pub record Pointers : Type 0 where
  pub words_a : Pointer
  pub words_b : Pointer
  pub control : Pointer
  pub control_lock : Pointer

abbrev pub made : Pointers
made = record { words_a = block; words_b = block; control = block; control_lock = block }

-- `segment_t`. The arrays are what is in the blocks that `pointers` says there are.
pub record Segment : Type 0 where
  pub control : ℕ → Control
  pub control_lock : ℕ → Lock
  pub words_array_a : Bytes
  pub words_array_b : Bytes
  pub n_words : ℕ
  pub align : ℕ
  pub deregistered : ℕ
  pub pointers : Pointers

-- All four pointers are to blocks, and so to those of one call of `init_segment`, which have `n_words` words
-- each. The model lets no other segment's pointers be followed.
abbrev pub usable : Segment → Bool
usable s =
    is_block s.pointers.words_a
    && (is_block s.pointers.words_b
        && (is_block s.pointers.control && is_block s.pointers.control_lock))

-- Which of the four allocations of `init_segment` succeed.
pub record SegmentMemory : Type 0 where
  pub words_a : Bool
  pub words_b : Bool
  pub control : Bool
  pub control_lock : Bool

-- The body of the loop of `init_segment`
unfoldable pub init_word : ℕ → Segment → Outcome Segment
unfolding lock_init
init_word i s = done (record s {
  control = update s.control i (record (s.control i) { access_set = none_tx });
  control_lock = update s.control_lock i (lock_init true true).0;
})

-- The allocations of `init_segment` and their failing branches: what was allocated before is freed, and the
-- pointers to it are kept; a pointer whose turn did not come is as it was, with what it points to.
abbrev with_control_lock : SegmentMemory → Segment → Segment × Bool
with_control_lock mem s =
    if mem.control_lock
    then (record s { pointers = record s.pointers { control_lock = block } }, true)
    else (
      record s {
        pointers = record {
          words_a = invalid;
          words_b = invalid;
          control = invalid;
          control_lock = null;
        };
      },
      false,
    )

abbrev with_control : SegmentMemory → Segment → Segment × Bool
with_control mem s =
    if mem.control
    then with_control_lock mem
        (record s { control = λ _. zero_control; pointers = record s.pointers { control = block } })
    else (
      record s {
        pointers = record s.pointers { words_a = invalid; words_b = invalid; control = null };
      },
      false,
    )

abbrev with_words_b : SegmentMemory → Segment → Segment × Bool
with_words_b mem s =
    if mem.words_b
    then with_control mem
        (record s { words_array_b = zeroed; pointers = record s.pointers { words_b = block } })
    else (record s { pointers = record s.pointers { words_a = invalid; words_b = null } }, false)

abbrev pub with_words_a : SegmentMemory → Segment → Segment × Bool
with_words_a mem s =
    if mem.words_a
    then with_words_b mem
        (record s { words_array_a = zeroed; pointers = record s.pointers { words_a = block } })
    else (record s { pointers = record s.pointers { words_a = null } }, false)

-- A division by an alignment of zero is undefined. The alignment is stored as an `int`, 32 bits.
unfoldable pub init_segment : SegmentMemory → Segment → ℕ → ℕ → Outcome (Segment × Bool)
init_segment mem seg align size =
    if align == 0
    then undefined
    else let (s, given) =
        with_words_a mem
          (record seg { align = align % 2 ^ 32; n_words = size / align; deregistered = none_tx }) in
      if not given
      then done (s, false)
      else for_range (size / align) 0 init_word s >>= λ t. done (t, true)

-- The loop of `segment_destroy`; the blocks that it frees are gone with the segment.
unfoldable pub segment_destroy : Segment → Outcome (Unit {0})
segment_destroy s =
    (if usable s then done tt else undefined)
    >> for_range s.n_words 0 (λ i u. lock_cleanup (s.control_lock i)) tt
