-- ===== src/Segment/Init.antt =====
-- `init_segment` where every allocation succeeds.
use cs_453_concurrent_algori.Common.{
  ℕ, zero, suc, ◌/◌, ◌%◌, ◌^◌, ◌<◌, ◌≡◌, ◌≢◌, ◌&&◌, refl, Bool, true, false, if◌then◌else◌, List,
  [], ◌∷◌, done, arith, for_range_inv, ltb,
}
use cs_453_concurrent_algori.Memory.{zeroed}
use cs_453_concurrent_algori.Segment.{
  Segment, SegmentMemory, made, none_tx, zero_control, init_word, init_segment,
}

-- A word of zero bytes
abbrev pub zeros : ℕ → List ℕ
zeros zero = []
zeros (suc n) = 0 ∷ zeros n

-- A segment that `init_segment` made: every word is zero in both copies, untouched, and its lock free.
pub record Blank (seg : Segment) (align size : ℕ) : Type 0 where
  pub pointers : seg.pointers ≡ made
  pub align_stored : seg.align ≡ align % 2 ^ 32
  pub n_words : seg.n_words ≡ size / align
  pub registered : seg.deregistered ≡ none_tx
  pub first_copy : seg.words_array_a ≡ zeroed
  pub second_copy : seg.words_array_b ≡ zeroed
  pub control :
      (j : ℕ) → j < seg.n_words → seg.control j ≡ record zero_control { access_set = none_tx }
  pub unlocked : (j : ℕ) → j < seg.n_words → (seg.control_lock j).mutex ≡ false

-- All four allocations succeed.
abbrev pub all_given : SegmentMemory → Bool
all_given mem = mem.words_a && (mem.words_b && (mem.control && mem.control_lock))

-- What the loop has done after `k` rounds
record Rounds (before : Segment) (k : ℕ) (seg : Segment) : Type 0 where
  a : seg.words_array_a ≡ before.words_array_a
  b : seg.words_array_b ≡ before.words_array_b
  words : seg.n_words ≡ before.n_words
  width : seg.align ≡ before.align
  tx : seg.deregistered ≡ before.deregistered
  places : seg.pointers ≡ before.pointers
  controls :
      (j : ℕ)
      → seg.control j
        ≡ (if ltb j k then record (before.control j) { access_set = none_tx } else before.control j)
  locks : (j : ℕ) → j < k → (seg.control_lock j).mutex ≡ false

round :
    (before : Segment) (k : ℕ) (seg : Segment)
    → Rounds before k seg
    → (t : Segment) × (init_word k seg ≡ done t) × Rounds before (suc k) t
unfolding init_word
round before k seg r = (
  _,
  refl,
  record {
    a = r.a;
    b = r.b;
    words = r.words;
    width = r.width;
    tx = r.tx;
    places = r.places;
    controls = λ j. ground (arith, r.controls j, r.controls k);
    locks = λ j h. ground (arith, r.locks j);
  },
)

-- The segment before the loop
abbrev prepared : Segment → ℕ → ℕ → Segment
prepared seg align size = record seg {
  align = align % 2 ^ 32;
  n_words = size / align;
  deregistered = none_tx;
  pointers = made;
  words_array_a = zeroed;
  words_array_b = zeroed;
  control = λ _. zero_control;
}

-- If every allocation succeeds, and the alignment is not zero, the call succeeds and the segment is blank,
-- whatever it held before.
pub init_segment-Blank :
    (mem : SegmentMemory) (seg : Segment) (align size : ℕ)
    → align ≢ 0
    → all_given mem ≡ true
    → (s : Segment) × (init_segment mem seg align size ≡ done (s, true)) × Blank s align size
unfolding init_segment
init_segment-Blank mem seg align size h ok =
    let before = prepared seg align size in
    let (s, run, r) =
      for_range_inv (Rounds before) init_word (size / align) 0 (size / align) before (omega arith)
        (λ k t _ p. round before k t p)
        (record {
          a = refl;
          b = refl;
          words = refl;
          width = refl;
          tx = refl;
          places = refl;
          controls = λ j. ground arith;
          locks = λ j q. absurd (omega arith);
        }) in
    (
      s,
      ground (arith, run),
      record {
        pointers = r.places;
        align_stored = r.width;
        n_words = r.words;
        registered = r.tx;
        first_copy = r.a;
        second_copy = r.b;
        control = λ j q. ground (arith, r.controls j, r.words);
        unlocked = λ j q. r.locks j (ground (arith, r.words));
      },
    )
