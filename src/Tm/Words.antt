-- ===== src/Tm/Words.antt =====
-- The loops of `tm_read` and `tm_write` over consecutive words.
use cs_453_concurrent_algori.Common.{
  ℕ, zero, suc, ◌+◌, ◌-◌, ◌≤◌, ◌<◌, ◌≡◌, ◌≢◌, ◌⊎◌, ◌∙◌, sym, ap, subst, refl, Bool, true, false,
  List, done, arith, ◌==◌, ℕ_discrete,
}
use cs_453_concurrent_algori.Memory.{Bytes}
use cs_453_concurrent_algori.Memory.Slices.{slice}
use cs_453_concurrent_algori.Segment.{Segment, none_tx}
use cs_453_concurrent_algori.Word.{success_alloc, word_exists}
use cs_453_concurrent_algori.Word.Spec.{Access, untouched, held, dirty, View, view, spec_write}
use cs_453_concurrent_algori.Word.Frame.{Frame}
use cs_453_concurrent_algori.Word.Writing.{Stored, write_word-Writes}
use cs_453_concurrent_algori.Tm.{write_words}

-- No other transaction has the word.
abbrev pub grants : ℕ → Access → Bool
grants tx untouched = true
grants tx (held t) = t == tx
grants tx (dirty t p) = t == tx

pub stored_granted :
    (tx : ℕ) (b : List ℕ) (v after : View) (status : ℕ)
    → grants tx v.access ≡ true
    → Stored v (spec_write tx b v) after status
    → (status ≡ success_alloc) × (after ≡ record v { access = dirty tx b })
stored_granted tx b v after status g s = ground arith

-- The words from `idx` on, `n` of them, exist, and their locks are free.
pub record Span (seg : Segment) (idx n : ℕ) : Type 0 where
  pub exist : (j : ℕ) → idx ≤ j → j < idx + n → word_exists seg j ≡ true
  pub unlocked : (j : ℕ) → idx ≤ j → j < idx + n → (seg.control_lock j).mutex ≡ false

pub Span-tail :
    {seg seg' : Segment} {idx n i : ℕ}
    → Span seg idx (suc n)
    → Frame seg i seg'
    → Span seg' (suc idx) n
Span-tail sp f = record {
  exist = λ j p q. rw (f.pointers, f.n_words) (sp.exist j (omega arith) (omega arith));
  unlocked = λ j p q. f.locks j ∙ sp.unlocked j (omega arith) (omega arith);
}

-- What `n` accepted writes leave: word `j` is `tx`'s, with the bytes of the source from `from + (j - idx)`
-- on, one byte further for each word.
pub record Written (seg : Segment) (tx idx n : ℕ) (source : Bytes) (from : ℕ) (seg' : Segment)
    : Type 0 where
  pub align : seg'.align ≡ seg.align
  pub n_words : seg'.n_words ≡ seg.n_words
  pub pointers : seg'.pointers ≡ seg.pointers
  pub deregistered : seg'.deregistered ≡ seg.deregistered
  pub locks : (j : ℕ) → (seg'.control_lock j).mutex ≡ (seg.control_lock j).mutex
  pub inside :
      (j : ℕ)
      → idx ≤ j
      → j < idx + n
      → view seg' j
        ≡ record (view seg j) { access = dirty tx (slice source (from + (j - idx)) seg.align) }
  pub outside : (j : ℕ) → (j < idx) ⊎ (idx + n ≤ j) → view seg' j ≡ view seg j

module _ (tx idx n : ℕ) (source : Bytes) (from : ℕ) (seg s1 s2 : Segment) (f : Frame seg idx s1)
    (here : view s1 idx ≡ record (view seg idx) { access = dirty tx (slice source from seg.align) })
    (ws : Written s1 tx (suc idx) n source (suc from) s2) where
  first_inside :
      view s2 idx
      ≡ record (view seg idx) { access = dirty tx (slice source (from + (idx - idx)) seg.align) }
  first_inside =
      let e : from + (idx - idx) ≡ from = omega arith in rw e (ws.outside idx (omega arith) ∙ here)

  later_inside :
      (j : ℕ)
      → suc idx ≤ j
      → j < idx + suc n
      → view s2 j
        ≡ record (view seg j) { access = dirty tx (slice source (from + (j - idx)) seg.align) }
  later_inside j p q =
      let shift : suc from + (j - suc idx) ≡ from + (j - idx) = omega arith in
      let same = f.others j (omega arith) in
      ws.inside j p (omega arith)
      ∙ ap
          (λ (v : View). record v {
            access = dirty tx (slice source (suc from + (j - suc idx)) s1.align);
          })
          same
      ∙ ap (λ k. record (view seg j) { access = dirty tx (slice source k s1.align) }) shift
      ∙ ap (λ k. record (view seg j) { access = dirty tx (slice source (from + (j - idx)) k) })
          f.align

  Written-cons : Written seg tx idx (suc n) source from s2
  Written-cons = record {
    align = ws.align ∙ f.align;
    n_words = ws.n_words ∙ f.n_words;
    pointers = ws.pointers ∙ f.pointers;
    deregistered = ws.deregistered ∙ f.deregistered;
    locks = λ j. ws.locks j ∙ f.locks j;
    inside = λ j p q. elim (ℕ_discrete j idx) [
      | yes e ↦
          subst
            (λ k. view s2 k ≡ record (view seg k) {
              access = dirty tx (slice source (from + (k - idx)) seg.align);
            })
            (sym e) first_inside
      | no e ↦ later_inside j (omega arith) q
    ];
    outside = λ j h. ws.outside j (omega arith) ∙ f.others j (omega arith);
  }

abbrev Writing : Segment → ℕ → ℕ → ℕ → Bytes → ℕ → Type 0
Writing seg tx idx n source from =
    (seg' : Segment) × (write_words n seg tx idx source from ≡ done (seg', true))
    × Written seg tx idx n source from seg'

module _ (tx : ℕ) (real : tx ≢ none_tx) (source : Bytes) where
  -- A write of `n` words none of which another transaction has runs to its end.
  pub write_words-Written :
      (n : ℕ) (seg : Segment) (idx from : ℕ)
      → Span seg idx n
      → ((j : ℕ) → idx ≤ j → j < idx + n → grants tx (view seg j).access ≡ true)
      → Writing seg tx idx n source from
  unfolding write_words
  write_words-Written zero seg idx from sp g = (
    seg,
    refl,
    record {
      align = refl;
      n_words = refl;
      pointers = refl;
      deregistered = refl;
      locks = λ j. refl;
      inside = λ j p q. absurd (omega arith);
      outside = λ j h. refl;
    },
  )
  write_words-Written (suc n) seg idx from sp g =
      let (s1, status, run, w) =
        write_word-Writes seg tx idx source from (sp.exist idx (omega arith) (omega arith))
          (sp.unlocked idx (omega arith) (omega arith)) real in
      let (good, here) =
        stored_granted tx (slice source from seg.align) (view seg idx) (view s1 idx) status
          (g idx (omega arith) (omega arith)) w.stored in
      let (s2, rest, ws) =
        write_words-Written n s1 (suc idx) (suc from) (Span-tail sp w.frame) (λ j p q.
          subst (λ v. grants tx v.access ≡ true) (sym (w.frame.others j (omega arith)))
            (g j (omega arith) (omega arith))) in
      (s2, rw (run, good) rest, Written-cons tx idx n source from seg s1 s2 w.frame here ws)
