-- ===== src/Epoch/Aborted.antt =====
-- What the two loops of `abort_transaction_tx` compute, in closed form.
use cs_453_concurrent_algori.Common.{
  ℕ, suc, ◌≤◌, ◌<◌, true, false, ◌&&◌, ◌==◌, ◌≡◌, fun_ext, subst, update, if◌then◌else◌, done,
  for_range, for_range_exact, arith,
}
use cs_453_concurrent_algori.Lock.{Lock}
use cs_453_concurrent_algori.Segment.{usable, Control, Segment, none_tx}
use cs_453_concurrent_algori.Region.{Region}
use cs_453_concurrent_algori.Epoch.{abort_word, abort_segment}
use cs_453_concurrent_algori.Epoch.Committed.{first_changed, first_changed-zero, first_changed-suc}

-- The control structure of a word behind the abort of a transaction
abbrev pub abort_control : ℕ → Control → Control
abort_control tx c =
    if c.access_set == tx && c.word_has_been_written
    then record c { access_set = none_tx; word_has_been_written = false }
    else c

abbrev pub aborted_words : ℕ → ℕ → Segment → Segment
aborted_words tx k seg = record seg { control = first_changed (abort_control tx) k seg.control }

-- A lock that was free is as it was behind an acquire and a release.
pub relock :
    (f : ℕ → Lock) (i : ℕ)
    → (f i).mutex ≡ false
    → update (update f i (record (f i) { mutex = true })) i (record (f i) { mutex = false }) ≡ f
relock f i h = fun_ext λ j. ground arith

-- The word locks of a segment are free.
abbrev pub Unlocked : Segment → Type 0
Unlocked seg = (j : ℕ) → j < seg.n_words → (seg.control_lock j).mutex ≡ false

abort_word_runs :
    (tx : ℕ) (seg : Segment) (k : ℕ)
    → usable seg ≡ true
    → Unlocked seg
    → k < seg.n_words
    → abort_word tx k (aborted_words tx k seg) ≡ done (aborted_words tx (suc k) seg)
unfolding abort_word
abort_word_runs tx seg k e u h =
    ground
      (arith, u k, relock seg.control_lock k, first_changed-suc (abort_control tx) k seg.control)

pub abort_words_run :
    (tx : ℕ) (seg : Segment)
    → usable seg ≡ true
    → Unlocked seg
    → for_range seg.n_words 0 (abort_word tx) seg ≡ done (aborted_words tx seg.n_words seg)
abort_words_run tx seg e u =
    subst (λ s. for_range seg.n_words 0 (abort_word tx) s ≡ done (aborted_words tx seg.n_words seg))
      (λ i. record seg { control = first_changed-zero (abort_control tx) seg.control i })
      (for_range_exact (λ k. aborted_words tx k seg) (abort_word tx) seg.n_words 0 seg.n_words
        (omega arith) (λ k h. abort_word_runs tx seg k e u h))

-- A segment behind the abort of a transaction
abbrev pub aborted : ℕ → Segment → Segment
aborted tx seg = record (aborted_words tx seg.n_words seg) {
  deregistered = if seg.deregistered == tx then none_tx else seg.deregistered;
}

abbrev pub aborted_segments : ℕ → ℕ → Region → Region
aborted_segments tx k r = record r { segments = first_changed (aborted tx) k r.segments }

-- What an abort relies on: the blocks are there, and no thread holds a lock.
pub record CanAbort (r : Region) : Type 0 where
  pub fits : r.n_segments ≤ r.capacity
  pub allocated : (i : ℕ) → i < r.n_segments → usable (r.segments i) ≡ true
  pub unlocked : (i : ℕ) → i < r.n_segments → Unlocked (r.segments i)
  pub global : r.global_lock.mutex ≡ false

module _ (tx : ℕ) (r : Region) (can : CanAbort r) where
  round :
      (k : ℕ)
      → k < r.n_segments
      → abort_segment tx k (aborted_segments tx k r) ≡ done (aborted_segments tx (suc k) r)
  unfolding abort_segment
  round k h = ground (
    arith,
    can.fits,
    can.global,
    abort_words_run tx (r.segments k) (can.allocated k h) (can.unlocked k h),
    first_changed-suc (aborted tx) k r.segments,
  )

  -- The loop of the abort returns: in every segment it has freed the words that the transaction wrote,
  -- and taken back its deregistration; nothing else in the region changed.
  pub abort_segments_run :
      for_range r.n_segments 0 (abort_segment tx) r ≡ done (aborted_segments tx r.n_segments r)
  abort_segments_run =
      subst
        (λ s.
          for_range r.n_segments 0 (abort_segment tx) s ≡ done (aborted_segments tx r.n_segments r))
        (λ i. record r { segments = first_changed-zero (aborted tx) r.segments i })
        (for_range_exact (λ k. aborted_segments tx k r) (abort_segment tx) r.n_segments 0
          r.n_segments (omega arith) round)
