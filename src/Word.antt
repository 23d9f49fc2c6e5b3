-- ===== src/Word.antt =====
-- 275085/tm.c, `read_word` and `write_word`: access of a transaction to one word of a segment.
pub mod Spec
pub mod Runs
pub mod Frame
pub mod Reading
pub mod Writing
pub mod WriteSkew
pub mod Consequences
use cs_453_concurrent_algori.Common.{
  ℕ, ◌*◌, Bool, true, ◌&&◌, not, ◌==◌, ltb, if◌then◌else◌, update, Outcome, done, ◌>>=◌, ◌>>◌,
  defined_if,
}
use cs_453_concurrent_algori.Lock.{lock_acquire, lock_release}
use cs_453_concurrent_algori.Memory.{Bytes, memcpy}
use cs_453_concurrent_algori.Segment.{usable, Control, Segment, none_tx}

-- `alloc_t` is an `int`, and `add_segment` returns one of its values among indices.
abbrev pub success_alloc : ℕ
success_alloc = 0

abbrev pub abort_alloc : ℕ
abort_alloc = 1

abbrev pub nomem_alloc : ℕ
nomem_alloc = 2

-- The copy that is read by all, and the copy that the owner of a written word uses.
abbrev pub ro_array : Segment → ℕ → Bytes
ro_array seg index = if (seg.control index).word_is_ro then seg.words_array_b else seg.words_array_a

abbrev pub rw_array : Segment → ℕ → Bytes
rw_array seg index = if (seg.control index).word_is_ro then seg.words_array_a else seg.words_array_b

-- The three macros that copy a word. The target is a block of private memory and an offset in it.
unfoldable pub read_read_only_copy : ℕ → Bytes → ℕ → Segment → Bytes
read_read_only_copy index target at seg =
    memcpy target at (ro_array seg index) (index * seg.align) seg.align

unfoldable pub read_writable_copy : ℕ → Bytes → ℕ → Segment → Bytes
read_writable_copy index target at seg =
    memcpy target at (rw_array seg index) (index * seg.align) seg.align

unfoldable pub write_to_correct_copy : ℕ → Bytes → ℕ → Segment → Segment
write_to_correct_copy index src from seg =
    if (seg.control index).word_is_ro
    then record seg {
      words_array_a = memcpy seg.words_array_a (index * seg.align) src from seg.align;
    }
    else record seg {
      words_array_b = memcpy seg.words_array_b (index * seg.align) src from seg.align;
    }

-- `lock_acquire(&segment->control_lock[index])`, and the release
unfoldable pub acquire_word : Segment → ℕ → Outcome Segment
unfolding lock_acquire
acquire_word seg index = lock_acquire (seg.control_lock index) >>= λ l.
    done (record seg { control_lock = update seg.control_lock index l })

unfoldable pub release_word : Segment → ℕ → Outcome Segment
unfolding lock_release
release_word seg index = lock_release (seg.control_lock index) >>= λ l.
    done (record seg { control_lock = update seg.control_lock index l })

abbrev pub set_control : Segment → ℕ → Control → Segment
set_control seg index c = record seg { control = update seg.control index c }

-- `&segment->control[index]` is followed: the arrays exist and have that index.
abbrev pub word_exists : Segment → ℕ → Bool
word_exists seg index = usable seg && ltb index seg.n_words

-- The part of `read_word` for a transaction that also writes, with the lock of the word held.
unfoldable pub read_word_locked : Segment → ℕ → ℕ → Bytes → ℕ → Outcome (Segment × Bytes × ℕ)
unfolding release_word read_read_only_copy read_writable_copy
read_word_locked seg tx index target at =
    let c = seg.control index in
    if not c.word_has_been_written
    then (let seg1 =
          if c.access_set == none_tx
          then set_control seg index (record c { access_set = tx })
          else seg in
        release_word seg1 index >>= λ seg2.
        done (seg2, read_read_only_copy index target at seg2, success_alloc))
    else if c.word_has_been_written && c.access_set == tx
    then (release_word seg index >>= λ seg2.
        done (seg2, read_writable_copy index target at seg2, success_alloc))
    else (release_word seg index >>= λ seg2. done (seg2, target, abort_alloc))

-- The segment, the private memory with what was copied, and the status
unfoldable pub read_word : Segment → ℕ → Bool → ℕ → Bytes → ℕ → Outcome (Segment × Bytes × ℕ)
unfolding read_word_locked acquire_word read_read_only_copy
read_word seg tx read_only_word index target at =
    defined_if (word_exists seg index)
    >> (if read_only_word
        then done (seg, read_read_only_copy index target at seg, success_alloc)
        else (acquire_word seg index >>= λ seg1. read_word_locked seg1 tx index target at))

-- The part of `write_word` for a word that is not written yet, with its lock held.
unfoldable pub write_word_locked : Segment → ℕ → ℕ → Bytes → ℕ → Outcome (Segment × ℕ)
unfolding release_word write_to_correct_copy
write_word_locked seg tx index source from =
    let c = seg.control index in
    if not (c.access_set == none_tx) && not (c.access_set == tx)
    then (release_word seg index >>= λ seg1. done (seg1, abort_alloc))
    else (let seg1 =
          set_control seg index (record c { access_set = tx; word_has_been_written = true }) in
        release_word seg1 index >>= λ seg2.
        done (write_to_correct_copy index source from seg2, success_alloc))

-- The source is a block of private memory and an offset in it.
unfoldable pub write_word : Segment → ℕ → ℕ → Bytes → ℕ → Outcome (Segment × ℕ)
unfolding write_word_locked acquire_word write_to_correct_copy
write_word seg tx index source from =
    let c = seg.control index in
    defined_if (word_exists seg index)
    >> (if c.word_has_been_written
        then (if c.access_set == tx
            then done (write_to_correct_copy index source from seg, success_alloc)
            else done (seg, abort_alloc))
        else (acquire_word seg index >>= λ seg1. write_word_locked seg1 tx index source from))
