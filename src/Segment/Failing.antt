-- ===== src/Segment/Failing.antt =====
-- `init_segment` where an allocation fails.
use cs_453_concurrent_algori.Common.{
  ℕ, ◌/◌, ◌%◌, ◌^◌, ◌≡◌, ◌≢◌, ◌&&◌, refl, Bool, true, false, if◌then◌else◌, List, [], ◌∷◌, done,
  arith,
}
use cs_453_concurrent_algori.Memory.{zeroed}
use cs_453_concurrent_algori.Segment.{
  Segment, SegmentMemory, Pointer, null, invalid, Pointers, usable, with_words_a, none_tx,
  zero_control, init_segment,
}
use cs_453_concurrent_algori.Segment.Init.{all_given}

-- The pointers in the order of their allocations
abbrev pub in_order : Pointers → List Pointer
in_order p = p.words_a ∷ p.words_b ∷ p.control ∷ p.control_lock ∷ []

abbrev pub given : SegmentMemory → List Bool
given mem = mem.words_a ∷ mem.words_b ∷ mem.control ∷ mem.control_lock ∷ []

-- Behind the first allocation that fails: pointers to what is freed, a null one, and then those of before
abbrev pub given_back : List Bool → List Pointer → List Pointer
given_back (true ∷ oks) (p ∷ ps) = invalid ∷ given_back oks ps
given_back (false ∷ oks) (p ∷ ps) = null ∷ ps
given_back [] ps = ps
given_back (true ∷ oks) [] = []
given_back (false ∷ oks) [] = []

-- The segment before its allocations
abbrev opened : Segment → ℕ → ℕ → Segment
opened seg align size = record seg {
  align = align % 2 ^ 32;
  n_words = size / align;
  deregistered = none_tx;
}

-- What a call leaves behind, one of whose allocations failed
abbrev half_made : SegmentMemory → Segment → ℕ → ℕ → Segment
half_made mem seg align size = (with_words_a mem (opened seg align size)).0

-- The failing branches
record Failed (mem : SegmentMemory) (s : Segment) : Type 0 where
  answer : (with_words_a mem s).1 ≡ false
  pointers : in_order (with_words_a mem s).0.pointers ≡ given_back (given mem) (in_order s.pointers)
  unusable : usable (with_words_a mem s).0 ≡ false
  words : (with_words_a mem s).0.n_words ≡ s.n_words
  registered : (with_words_a mem s).0.deregistered ≡ s.deregistered
  locks : (with_words_a mem s).0.control_lock ≡ s.control_lock
  second_copy :
      (with_words_a mem s).0.words_array_b
      ≡ (if mem.words_a && mem.words_b then zeroed else s.words_array_b)
  controls :
      (with_words_a mem s).0.control
      ≡ (if mem.words_a && (mem.words_b && mem.control) then (λ _. zero_control) else s.control)

allocations_fail :
    (a b c d : Bool) (s : Segment)
    → a && (b && (c && d)) ≡ false
    → Failed (record { words_a = a; words_b = b; control = c; control_lock = d }) s
allocations_fail false b c d s h = record {
  answer = refl;
  pointers = refl;
  unusable = refl;
  words = refl;
  registered = refl;
  locks = refl;
  second_copy = refl;
  controls = refl;
}
allocations_fail true false c d s h = record {
  answer = refl;
  pointers = refl;
  unusable = refl;
  words = refl;
  registered = refl;
  locks = refl;
  second_copy = refl;
  controls = refl;
}
allocations_fail true true false d s h = record {
  answer = refl;
  pointers = refl;
  unusable = refl;
  words = refl;
  registered = refl;
  locks = refl;
  second_copy = refl;
  controls = refl;
}
allocations_fail true true true false s h = record {
  answer = refl;
  pointers = refl;
  unusable = refl;
  words = refl;
  registered = refl;
  locks = refl;
  second_copy = refl;
  controls = refl;
}
allocations_fail true true true true s h = absurd (ground arith)

-- If some allocation fails, and the alignment is not zero, the call says so. The pointers before the first
-- one that got no memory are to blocks that are freed again, that one is null, and those behind it are as
-- they were, with what is in their blocks, so that a segment which is used again may keep some blocks of
-- its earlier use. Not all four are to blocks then. The segment has its new number of words, and is
-- registered.
pub init_segment_fails :
    (mem : SegmentMemory) (seg : Segment) (align size : ℕ)
    → align ≢ 0
    → all_given mem ≡ false
    → (s : Segment) × (init_segment mem seg align size ≡ done (s, false))
      × (in_order s.pointers ≡ given_back (given mem) (in_order seg.pointers))
      × (usable s ≡ false)
      × (s.n_words ≡ size / align)
      × (s.deregistered ≡ none_tx)
      × (s.control_lock ≡ seg.control_lock)
      × (s.words_array_b ≡ (if mem.words_a && mem.words_b then zeroed else seg.words_array_b))
      × (s.control ≡ (
          if mem.words_a && (mem.words_b && mem.control) then (λ _. zero_control) else seg.control))
unfolding init_segment
init_segment_fails mem seg align size h bad =
    let f =
      allocations_fail mem.words_a mem.words_b mem.control mem.control_lock (opened seg align size)
        bad in
    (
      half_made mem seg align size,
      ground (arith, f.answer),
      f.pointers,
      f.unusable,
      f.words,
      f.registered,
      f.locks,
      f.second_copy,
      f.controls,
    )
