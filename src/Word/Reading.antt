-- ===== src/Word/Reading.antt =====
-- `read_word` implements the read of the abstract word of Word/Spec.antt.
use cs_453_concurrent_algori.Common.{
  ℕ, ◌+◌, ◌*◌, ◌≤◌, ◌<◌, true, false, ◌≡◌, ◌≢◌, ◌⊎◌, inl, inr, refl, Option, none, some, done,
  arith, Bool-cases, List, ℕ_discrete,
}
use cs_453_concurrent_algori.Memory.{Bytes, memcpy, memcpy_outside}
use cs_453_concurrent_algori.Memory.Slices.{slice, slice-memcpy_self}
use cs_453_concurrent_algori.Segment.{Segment, none_tx}
use cs_453_concurrent_algori.Word.{
  success_alloc, abort_alloc, read_read_only_copy, read_writable_copy, word_exists, read_word,
  ro_array, rw_array,
}
use cs_453_concurrent_algori.Word.Spec.{spec_read, view}
use cs_453_concurrent_algori.Word.Runs.{
  cycle, read_word-ro, claimed, read_word_unwritten, read_word_own, read_word_other,
}
use cs_453_concurrent_algori.Word.Frame.{Frame, cycle-Frame, claimed-Frame}

-- The private memory and the status behind a read of `align` bytes to offset `at`.
abbrev pub Copied : ℕ → Bytes → ℕ → Option (List ℕ) → Bytes → ℕ → Type 0
Copied align target at (some bytes) target' status =
    (status ≡ success_alloc)
    × (slice target' at align ≡ bytes)
    × ((a : ℕ) → (a < at) ⊎ (at + align ≤ a) → target' a ≡ target a)
Copied align target at none target' status = (status ≡ abort_alloc) × (target' ≡ target)

pub record Reads (seg : Segment) (tx i : ℕ) (target : Bytes) (at : ℕ) (seg' : Segment)
    (target' : Bytes) (status : ℕ) : Type 0 where
  pub frame : Frame seg i seg'
  pub here : view seg' i ≡ (spec_read tx (view seg i)).1
  pub copied : Copied seg.align target at (spec_read tx (view seg i)).0 target' status

-- A copy of one word from some array
Copied-word :
    (target src : Bytes) (at from align : ℕ)
    → Copied align target at
        (some (slice src from align))
        (memcpy target at src from align)
        success_alloc
Copied-word target src at from align = (
  refl,
  slice-memcpy_self target at src from align,
  λ a h. memcpy_outside target at src from align a h,
)

module _ (seg : Segment) (tx i : ℕ) (target : Bytes) (at : ℕ) (exists : word_exists seg i ≡ true)
    (unlocked : (seg.control_lock i).mutex ≡ false) (real : tx ≢ none_tx) where
  unwritten-Reads :
      (seg.control i).word_has_been_written ≡ false
      → Reads seg tx i target at
          (cycle (claimed seg tx i) i)
          (read_read_only_copy i target at (cycle (claimed seg tx i) i))
          success_alloc
  unfolding read_read_only_copy
  unwritten-Reads h = record {
    frame = claimed-Frame seg tx i unlocked;
    here = ground arith;
    copied = ground (arith, Copied-word target (ro_array seg i) at (i * seg.align) seg.align);
  }

  own-Reads :
      (seg.control i).word_has_been_written ≡ true
      → (seg.control i).access_set ≡ tx
      → Reads seg tx i target at
          (cycle seg i)
          (read_writable_copy i target at (cycle seg i))
          success_alloc
  unfolding read_writable_copy
  own-Reads h e = record {
    frame = cycle-Frame seg i unlocked;
    here = ground arith;
    copied = ground (arith, Copied-word target (rw_array seg i) at (i * seg.align) seg.align);
  }

  other-Reads :
      (seg.control i).word_has_been_written ≡ true
      → (seg.control i).access_set ≢ tx
      → Reads seg tx i target at (cycle seg i) target abort_alloc
  other-Reads h e = record {
    frame = cycle-Frame seg i unlocked;
    here = ground arith;
    copied = ground arith;
  }

  -- A transaction that also writes reads what the abstract word gives it, which may be its own pending
  -- bytes, and is refused exactly when another transaction wrote the word. The word is left as the
  -- abstract read leaves it, and every other word as it was. The call returns, with the word's lock free. (The
  -- word exists, its lock is free before the call, and the transaction is not `none_tx`.)
  pub read_word-Reads :
      (seg' : Segment) × (target' : Bytes) × (status : ℕ) × (read_word seg tx false i target at
        ≡ done (seg', target', status))
      × Reads seg tx i target at seg' target' status
  read_word-Reads = elim (Bool-cases (seg.control i).word_has_been_written) [
    | inr h ↦ (_, _, _, read_word_unwritten seg tx i exists unlocked target at h, unwritten-Reads h)
    | inl h ↦ elim (ℕ_discrete (seg.control i).access_set tx) [
      | yes e ↦ (_, _, _, read_word_own seg tx i exists unlocked target at h e, own-Reads h e)
      | no e ↦ (_, _, _, read_word_other seg tx i exists unlocked target at h e, other-Reads h e)
    ]
  ]

-- A transaction that only reads gets the committed bytes of a word that exists, whatever other transactions did to the word,
-- and changes nothing in the segment.
pub read_word_ro_committed :
    (seg : Segment) (tx i : ℕ) (target : Bytes) (at : ℕ)
    → word_exists seg i ≡ true
    → (target' : Bytes) × (read_word seg tx true i target at ≡ done (seg, target', success_alloc))
      × Copied seg.align target at (some (view seg i).committed) target' success_alloc
unfolding read_read_only_copy
read_word_ro_committed seg tx i target at exists = (
  read_read_only_copy i target at seg,
  read_word-ro seg tx i exists target at,
  Copied-word target (ro_array seg i) at (i * seg.align) seg.align,
)
