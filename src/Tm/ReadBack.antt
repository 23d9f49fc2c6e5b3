-- ===== src/Tm/ReadBack.antt =====
-- A transaction that reads the words that it wrote.
use cs_453_concurrent_algori.Common.{
  ℕ, zero, suc, ◌+◌, ◌-◌, ◌*◌, ◌≤◌, ◌<◌, ◌≡◌, ◌≢◌, ◌⊎◌, ◌∙◌, sym, ap, subst, refl, true, false,
  List, some, done, arith, ℕ_discrete,
}
use cs_453_concurrent_algori.Memory.{Bytes}
use cs_453_concurrent_algori.Memory.Slices.{slice, slice_ext}
use cs_453_concurrent_algori.Segment.{Segment, none_tx}
use cs_453_concurrent_algori.Word.{success_alloc}
use cs_453_concurrent_algori.Word.Spec.{dirty, View, view, spec_read}
use cs_453_concurrent_algori.Word.Reading.{Copied, read_word-Reads}
use cs_453_concurrent_algori.Tm.{read_words, write_words}
use cs_453_concurrent_algori.Tm.Words.{grants, Span, Span-tail, write_words-Written}

Copied-dirty :
    (tx align : ℕ) (p : List ℕ) (v v' : View) (target : Bytes) (at : ℕ) (target' : Bytes)
    (status : ℕ)
    → v.access ≡ dirty tx p
    → v' ≡ (spec_read tx v).1
    → Copied align target at (spec_read tx v).0 target' status
    → (status ≡ success_alloc)
      × (slice target' at align ≡ p)
      × ((a : ℕ) → (a < at) ⊎ (at + align ≤ a) → target' a ≡ target a)
      × (v' ≡ v)
Copied-dirty tx align p v v' target at target' status e h c =
    let granted : spec_read tx v ≡ (some p, v) = ground arith in
    let c' = subst (λ o. Copied align target at o.0 target' status) granted c in
    (c'.0, c'.1, c'.2, h ∙ ap (λ o. o.1) granted)

-- The bytes of word `j` behind a read from word `idx` on into offset `at`
abbrev pub word_read : Bytes → ℕ → ℕ → ℕ → ℕ → List ℕ
word_read target at idx align j = slice target (at + (j - idx) * align) align

-- The first word stays as it was read while the others are copied behind it.
kept_word :
    (idx at align : ℕ) (t1 t2 : Bytes) (p : List ℕ)
    → slice t1 at align ≡ p
    → ((a : ℕ) → a < at + align → t2 a ≡ t1 a)
    → word_read t2 at idx align idx ≡ p
kept_word idx at align t1 t2 p e same =
    let nil : idx - idx ≡ 0 = omega arith in
    let start : at + (idx - idx) * align ≡ at = rw nil (omega arith) in
    rw start (slice_ext t2 t1 at at align (λ k q. same (at + k) (omega arith)) ∙ e)

shifted :
    (idx j at align align1 : ℕ) (t : Bytes) (p : List ℕ)
    → suc idx ≤ j
    → align1 ≡ align
    → word_read t (at + align) (suc idx) align1 j ≡ p
    → word_read t at idx align j ≡ p
shifted idx j at align align1 t p h e w =
    let step : j - idx ≡ suc (j - suc idx) = omega arith in
    let place : at + (j - idx) * align ≡ at + align + (j - suc idx) * align =
      rw step (omega arith) in
    rw place (subst (λ k. slice t (at + align + (j - suc idx) * k) k ≡ p) e w)

record Back (seg : Segment) (tx idx n : ℕ) (p : ℕ → List ℕ) (target : Bytes) (at : ℕ) : Type 0 where
  seg' : Segment
  target' : Bytes
  run : read_words n seg tx false idx target at ≡ done (seg', target', true)
  words : (j : ℕ) → idx ≤ j → j < idx + n → word_read target' at idx seg.align j ≡ p j
  below : (a : ℕ) → a < at → target' a ≡ target a

module _ (tx : ℕ) (real : tx ≢ none_tx) (p : ℕ → List ℕ) where
  read_dirty :
      (n : ℕ) (seg : Segment) (idx : ℕ) (target : Bytes) (at : ℕ)
      → Span seg idx n
      → ((j : ℕ) → idx ≤ j → j < idx + n → (view seg j).access ≡ dirty tx (p j))
      → Back seg tx idx n p target at
  unfolding read_words
  read_dirty zero seg idx target at sp d = record {
    seg' = seg;
    target' = target;
    run = refl;
    words = λ j h k. absurd (omega arith);
    below = λ a h. refl;
  }
  read_dirty (suc n) seg idx target at sp d =
      let (s1, t1, status, run, r) =
        read_word-Reads seg tx idx target at (sp.exist idx (omega arith) (omega arith))
          (sp.unlocked idx (omega arith) (omega arith)) real in
      let (good, word, out, here) =
        Copied-dirty tx seg.align (p idx) (view seg idx) (view s1 idx) target at t1 status
          (d idx (omega arith) (omega arith)) r.here r.copied in
      let rest = read_dirty n s1 (suc idx) t1 (at + seg.align) (Span-tail sp r.frame) (λ j h k.
        ap (λ (v : View). v.access) (r.frame.others j (omega arith))
        ∙ d j (omega arith) (omega arith)) in
      record {
        seg' = rest.seg';
        target' = rest.target';
        run = rw (run, good) rest.run;
        words = λ j h k. elim (ℕ_discrete j idx) [
          | yes e ↦
              subst (λ i. word_read rest.target' at idx seg.align i ≡ p i) (sym e)
                (kept_word idx at seg.align t1 rest.target' (p idx) word
                  (λ a q. rest.below a (omega arith)))
          | no e ↦
              shifted idx j at seg.align s1.align rest.target' (p j) (omega arith) r.frame.align
                (rest.words j (omega arith) (omega arith))
        ];
        below = λ a h. rest.below a (omega arith) ∙ out a (omega arith);
      }

-- Of `n` words that exist, are not locked and that no other transaction has, a transaction writes all and
-- reads all back: word `j` then has, at its place in the target, the bytes of the source from
-- `from + (j - idx)` on, one byte further for each word.
pub write_then_read :
    (tx : ℕ) (source : Bytes) (from n : ℕ) (seg : Segment) (idx : ℕ) (target : Bytes) (at : ℕ)
    → tx ≢ none_tx
    → Span seg idx n
    → ((j : ℕ) → idx ≤ j → j < idx + n → grants tx (view seg j).access ≡ true)
    → (seg1 : Segment) × (seg2 : Segment) × (target' : Bytes) × (write_words n seg tx idx source
          from
        ≡ done (seg1, true))
      × (read_words n seg1 tx false idx target at ≡ done (seg2, target', true))
      × ((j : ℕ)
          → idx ≤ j
          → j < idx + n
          → word_read target' at idx seg.align j ≡ slice source (from + (j - idx)) seg.align)
write_then_read tx source from n seg idx target at real sp g =
    let (s1, run, w) = write_words-Written tx real source n seg idx from sp g in
    let p = λ (j : ℕ). slice source (from + (j - idx)) seg.align in
    let sp1 : Span s1 idx n = record {
      exist = λ j h k. rw (w.pointers, w.n_words) (sp.exist j h k);
      unlocked = λ j h k. w.locks j ∙ sp.unlocked j h k;
    } in
    let back =
      read_dirty tx real p n s1 idx target at sp1
        (λ j h k. ap (λ (v : View). v.access) (w.inside j h k)) in
    (
      s1,
      back.seg',
      back.target',
      run,
      back.run,
      λ j h k.
          subst (λ a. word_read back.target' at idx a j ≡ slice source (from + (j - idx)) seg.align)
            w.align (back.words j h k),
    )
