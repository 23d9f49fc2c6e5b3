-- ===== src/Word/Writing.antt =====
-- `write_word` implements the write of the abstract word of Word/Spec.antt.
use cs_453_concurrent_algori.Common.{
  ℕ, ◌*◌, true, false, ◌≡◌, ◌≢◌, ◌⊎◌, inl, inr, refl, Option, none, some, done, arith, Bool-cases,
  List, ℕ_discrete,
}
use cs_453_concurrent_algori.Memory.{Bytes, memcpy}
use cs_453_concurrent_algori.Memory.Slices.{
  slice, slice-memcpy_self, slice-memcpy_apart, words_apart,
}
use cs_453_concurrent_algori.Segment.{Segment, none_tx}
use cs_453_concurrent_algori.Word.{
  success_alloc, abort_alloc, write_to_correct_copy, word_exists, write_word,
}
use cs_453_concurrent_algori.Word.Spec.{View, dirty, spec_write, view}
use cs_453_concurrent_algori.Word.Runs.{
  cycle, owned, write_word_first, write_word_held, write_word_own, write_word_other,
}
use cs_453_concurrent_algori.Word.Frame.{Frame, cycle-Frame, owned-Frame, Frame-trans}

-- The status and the word behind a write.
abbrev pub Stored : View → Option View → View → ℕ → Type 0
Stored before (some v) after status = (status ≡ success_alloc) × (after ≡ v)
Stored before none after status = (status ≡ abort_alloc) × (after ≡ before)

pub record Writes (seg : Segment) (tx i : ℕ) (bytes : List ℕ) (seg' : Segment) (status : ℕ)
    : Type 0 where
  pub frame : Frame seg i seg'
  pub stored : Stored (view seg i) (spec_write tx bytes (view seg i)) (view seg' i) status

module _ (seg : Segment) (i : ℕ) (source : Bytes) (from : ℕ) where
  abbrev stored : Segment
  stored = write_to_correct_copy i source from seg

  store-apart :
      (j : ℕ) (block : Bytes)
      → j ≢ i
      → slice (memcpy block (i * seg.align) source from seg.align) (j * seg.align) seg.align
        ≡ slice block (j * seg.align) seg.align
  store-apart j block h =
      slice-memcpy_apart block (i * seg.align) source from seg.align (j * seg.align) seg.align
        (words_apart j i seg.align h)

  store-Frame : Frame seg i (write_to_correct_copy i source from seg)
  unfolding write_to_correct_copy
  store-Frame = record {
    n_words = ground arith;
    align = ground arith;
    deregistered = ground arith;
    pointers = ground arith;
    locks = λ j. ground arith;
    others =
        λ j h. ground (arith, store-apart j seg.words_array_a h, store-apart j seg.words_array_b h);
  }

  store-view :
      (seg.control i).word_has_been_written ≡ true
      → view (write_to_correct_copy i source from seg) i ≡ record (view seg i) {
        access = dirty (seg.control i).access_set (slice source from seg.align);
      }
  unfolding write_to_correct_copy
  store-view h = ground (
    arith,
    slice-memcpy_self seg.words_array_a (i * seg.align) source from seg.align,
    slice-memcpy_self seg.words_array_b (i * seg.align) source from seg.align,
  )

module _ (seg : Segment) (tx i : ℕ) (source : Bytes) (from : ℕ) (exists : word_exists seg i ≡ true)
    (unlocked : (seg.control_lock i).mutex ≡ false) (real : tx ≢ none_tx) where
  abbrev bytes : List ℕ
  bytes = slice source from seg.align

  first-Writes :
      (seg.control i).word_has_been_written ≡ false
      → ((seg.control i).access_set ≡ none_tx) ⊎ ((seg.control i).access_set ≡ tx)
      → Writes seg tx i bytes
          (write_to_correct_copy i source from (cycle (owned seg tx i) i))
          success_alloc
  first-Writes h e =
      let s = cycle (owned seg tx i) i in
      record {
        frame = Frame-trans (owned-Frame seg tx i unlocked) (store-Frame s i source from);
        stored = ground (arith, store-view s i source from (ground arith));
      }

  held-Writes :
      (seg.control i).word_has_been_written ≡ false
      → (seg.control i).access_set ≢ none_tx
      → (seg.control i).access_set ≢ tx
      → Writes seg tx i bytes (cycle seg i) abort_alloc
  held-Writes h e k = record { frame = cycle-Frame seg i unlocked; stored = ground arith }

  own-Writes :
      (seg.control i).word_has_been_written ≡ true
      → (seg.control i).access_set ≡ tx
      → Writes seg tx i bytes (write_to_correct_copy i source from seg) success_alloc
  own-Writes h e = record {
    frame = store-Frame seg i source from;
    stored = ground (arith, store-view seg i source from h);
  }

  other-Writes :
      (seg.control i).word_has_been_written ≡ true
      → (seg.control i).access_set ≢ tx
      → Writes seg tx i bytes seg abort_alloc
  other-Writes h e = record {
    frame = record {
      n_words = refl;
      align = refl;
      deregistered = refl;
      pointers = refl;
      locks = λ j. refl;
      others = λ j k. refl;
    };
    stored = ground arith;
  }

  unwritten-Writes :
      (seg.control i).word_has_been_written ≡ false
      → (seg' : Segment) × (status : ℕ) × (write_word seg tx i source from ≡ done (seg', status))
        × Writes seg tx i bytes seg' status
  unwritten-Writes h = elim (ℕ_discrete (seg.control i).access_set none_tx) [
    | yes e ↦ (
      _,
      _,
      write_word_first seg tx i exists unlocked source from h (inl e),
      first-Writes h (inl e),
    )
    | no e ↦ elim (ℕ_discrete (seg.control i).access_set tx) [
      | yes k ↦ (
        _,
        _,
        write_word_first seg tx i exists unlocked source from h (inr k),
        first-Writes h (inr k),
      )
      | no k ↦ (_, _, write_word_held seg tx i exists unlocked source from h e k, held-Writes h e k)
    ]
  ]

  -- A write of the next `align` bytes of the source is accepted exactly when the abstract word accepts
  -- it, that is, unless another transaction read the word first or wrote it. The word is left as the
  -- abstract write leaves it, with its committed bytes, and every other word as it was. The call returns,
  -- with the word's lock free. (The word exists, its lock is free before the call, and the transaction is
  -- not `none_tx`.)
  pub write_word-Writes :
      (seg' : Segment) × (status : ℕ) × (write_word seg tx i source from ≡ done (seg', status))
      × Writes seg tx i (slice source from seg.align) seg' status
  write_word-Writes = elim (Bool-cases (seg.control i).word_has_been_written) [
    | inr h ↦ unwritten-Writes h
    | inl h ↦ elim (ℕ_discrete (seg.control i).access_set tx) [
      | yes e ↦ (_, _, write_word_own seg tx i exists h source from e, own-Writes h e)
      | no e ↦ (_, _, write_word_other seg tx i exists h source from e, other-Writes h e)
    ]
  ]
