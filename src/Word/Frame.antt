-- ===== src/Word/Frame.antt =====
-- What an operation on one word leaves alone: the shape of the segment, whether locks are held, and all
-- other words.
use cs_453_concurrent_algori.Common.{ℕ, false, ◌≡◌, ◌≢◌, refl, arith, ◌∙◌}
use cs_453_concurrent_algori.Segment.{Segment}
use cs_453_concurrent_algori.Word.Spec.{view}
use cs_453_concurrent_algori.Word.Runs.{cycle, claimed, owned}

-- What a word operation leaves alone.
pub record Frame (seg : Segment) (i : ℕ) (seg' : Segment) : Type 0 where
  pub n_words : seg'.n_words ≡ seg.n_words
  pub align : seg'.align ≡ seg.align
  pub deregistered : seg'.deregistered ≡ seg.deregistered
  pub pointers : seg'.pointers ≡ seg.pointers
  pub locks : (j : ℕ) → (seg'.control_lock j).mutex ≡ (seg.control_lock j).mutex
  pub others : (j : ℕ) → j ≢ i → view seg' j ≡ view seg j

pub cycle-Frame :
    (seg : Segment) (i : ℕ) → (seg.control_lock i).mutex ≡ false → Frame seg i (cycle seg i)
cycle-Frame seg i unlocked = record {
  n_words = refl;
  align = refl;
  deregistered = refl;
  pointers = refl;
  locks = λ j. ground arith;
  others = λ j h. refl;
}

pub claimed-Frame :
    (seg : Segment) (tx i : ℕ)
    → (seg.control_lock i).mutex ≡ false
    → Frame seg i (cycle (claimed seg tx i) i)
claimed-Frame seg tx i unlocked = record {
  n_words = ground arith;
  align = ground arith;
  deregistered = ground arith;
  pointers = ground arith;
  locks = λ j. ground arith;
  others = λ j h. ground arith;
}

pub owned-Frame :
    (seg : Segment) (tx i : ℕ)
    → (seg.control_lock i).mutex ≡ false
    → Frame seg i (cycle (owned seg tx i) i)
owned-Frame seg tx i unlocked = record {
  n_words = refl;
  align = refl;
  deregistered = refl;
  pointers = refl;
  locks = λ j. ground arith;
  others = λ j h. ground arith;
}

pub Frame-trans : {a b c : Segment} {i : ℕ} → Frame a i b → Frame b i c → Frame a i c
Frame-trans f g = record {
  n_words = g.n_words ∙ f.n_words;
  align = g.align ∙ f.align;
  deregistered = g.deregistered ∙ f.deregistered;
  pointers = g.pointers ∙ f.pointers;
  locks = λ j. g.locks j ∙ f.locks j;
  others = λ j h. g.others j h ∙ f.others j h;
}
