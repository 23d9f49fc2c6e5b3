-- ===== src/Epoch/Committed.antt =====
-- What the two loops of `commit_transcations_in_epoch` compute, in closed form.
use cs_453_concurrent_algori.Common.{
  ℕ, zero, suc, ◌+◌, ◌≤◌, ◌<◌, true, false, not, ◌==◌, ltb, ◌≡◌, refl, fun_ext, sym, ℕ_discrete,
  subst, ◌≢◌, dec_lt, for_range_exact, update, if◌then◌else◌, done, for_range, for_range_inv, arith,
  List, [], ◌∷◌, ◌++◌, ap,
}
use cs_453_concurrent_algori.Common.Int.{ℤ, pos}
use cs_453_concurrent_algori.Stack.{Stack, max_stack_size, push}
use cs_453_concurrent_algori.Stack.Laws.{IsStack, length, push-IsStack}
use cs_453_concurrent_algori.Segment.{usable, Control, Segment, none_tx}
use cs_453_concurrent_algori.Region.{Region}
use cs_453_concurrent_algori.Epoch.{commit_word, commit_segment, commit_transcations_in_epoch}

-- The control structure of a word behind a commit
abbrev pub commit_control : Control → Control
commit_control c = record {
  word_is_ro = if c.word_has_been_written then not c.word_is_ro else c.word_is_ro;
  access_set = none_tx;
  word_has_been_written = false;
}

-- The first `k` entries of an array are changed.
abbrev pub first_changed {ℓ} : {A : Type ℓ} → (A → A) → ℕ → (ℕ → A) → ℕ → A
first_changed g k f j = if ltb j k then g (f j) else f j

pub first_changed-zero {ℓ} : {A : Type ℓ} (g : A → A) (f : ℕ → A) → first_changed g 0 f ≡ f
first_changed-zero g f = fun_ext λ j. ground arith

pub first_changed-suc {ℓ} :
    {A : Type ℓ} (g : A → A) (k : ℕ) (f : ℕ → A)
    → update (first_changed g k f) k (g (f k)) ≡ first_changed g (suc k) f
first_changed-suc g k f = fun_ext λ j. ground arith

abbrev pub committed_words : ℕ → Segment → Segment
committed_words k seg = record seg { control = first_changed commit_control k seg.control }

commit_word_runs :
    (seg : Segment) (k : ℕ)
    → usable seg ≡ true
    → k < seg.n_words
    → commit_word k (committed_words k seg) ≡ done (committed_words (suc k) seg)
unfolding commit_word
commit_word_runs seg k e h = ground (arith, first_changed-suc commit_control k seg.control)

-- The inner loop runs over every word of the segment.
pub commit_words_run :
    (seg : Segment)
    → usable seg ≡ true
    → for_range seg.n_words 0 commit_word seg ≡ done (committed_words seg.n_words seg)
commit_words_run seg e =
    subst (λ s. for_range seg.n_words 0 commit_word s ≡ done (committed_words seg.n_words seg))
      (λ i. record seg { control = first_changed-zero commit_control seg.control i })
      (for_range_exact (λ k. committed_words k seg) commit_word seg.n_words 0 seg.n_words
        (omega arith) (λ k h. commit_word_runs seg k e h))

-- A segment behind a commit: one that is deregistered is left as it is.
abbrev pub committed : Segment → Segment
committed seg = if seg.deregistered == none_tx then committed_words seg.n_words seg else seg

-- The indices below `k` of the segments that are deregistered, the greatest first
abbrev pub deregistered_below : (ℕ → Segment) → ℕ → List ℤ
deregistered_below f zero = []
deregistered_below f (suc k) =
    if (f k).deregistered == none_tx then deregistered_below f k else pos k ∷ deregistered_below f k

abbrev pub committed_segments : ℕ → Region → Stack → Region
committed_segments k r st = record r {
  segments = first_changed committed k r.segments;
  free_seg_indices = st;
}

-- What the commit relies on: the blocks are there, and the stack of free indices has room.
pub record CanCommit (r : Region) (free : List ℤ) : Type 0 where
  pub fits : r.n_segments ≤ r.capacity
  pub allocated : (i : ℕ) → i < r.n_segments → usable (r.segments i) ≡ true
  pub stack : IsStack r.free_seg_indices free
  pub room : length (deregistered_below r.segments r.n_segments) + length free ≤ max_stack_size

length-deregistered_mono :
    (f : ℕ → Segment) (k n : ℕ)
    → k ≤ n
    → length (deregistered_below f k) ≤ length (deregistered_below f n)
length-deregistered_mono f k zero h = let e : k ≡ 0 = omega arith in rw e (omega arith)
length-deregistered_mono f k (suc n) h = elim (dec_lt n k) [
  | yes p ↦ let e : k ≡ suc n = omega arith in rw e (omega arith)
  | no p ↦ ground (arith, length-deregistered_mono f k n)
]

length-append : (xs ys : List ℤ) → length (xs ++ ys) ≡ length xs + length ys
length-append [] ys = omega arith
length-append (x ∷ xs) ys = omega (arith, length-append xs ys)

module _ (r : Region) (free : List ℤ) (can : CanCommit r free) where
  -- The region and the stack behind `k` rounds of the outer loop
  abbrev Rounds : ℕ → Region → Type 0
  Rounds k r' =
      (st : Stack) × (r' ≡ committed_segments k r st)
      × IsStack st (deregistered_below r.segments k ++ free)

  abbrev Next : ℕ → Region → Type 0
  Next k t = (t' : Region) × (commit_segment k t ≡ done t') × Rounds (suc k) t'

  kept_round :
      (k : ℕ) (st : Stack)
      → k < r.n_segments
      → (r.segments k).deregistered ≡ none_tx
      → commit_segment k (committed_segments k r st) ≡ done (committed_segments (suc k) r st)
  unfolding commit_segment
  kept_round k st h e = ground (
    arith,
    can.fits,
    commit_words_run (r.segments k) (can.allocated k h),
    first_changed-suc committed k r.segments,
  )

  freed_round :
      (k : ℕ) (st st' : Stack)
      → k < r.n_segments
      → (r.segments k).deregistered ≢ none_tx
      → push st (pos k) ≡ done (st', pos 0)
      → commit_segment k (committed_segments k r st) ≡ done (committed_segments (suc k) r st')
  unfolding commit_segment
  freed_round k st st' h e p = ground (arith, can.fits, p, fun_ext same)
    where
      same :
          (j : ℕ)
          → first_changed committed k r.segments j ≡ first_changed committed (suc k) r.segments j
      same j = ground arith

  room_at :
      (k : ℕ)
      → k < r.n_segments
      → (r.segments k).deregistered ≢ none_tx
      → length (deregistered_below r.segments k ++ free) < max_stack_size
  room_at k h e = ground (
    arith,
    can.room,
    length-append (deregistered_below r.segments k) free,
    length-deregistered_mono r.segments (suc k) r.n_segments h,
  )

  round : (k : ℕ) (t : Region) → k < r.n_segments → Rounds k t → Next k t
  round k t h (st, e, s) = elim (ℕ_discrete (r.segments k).deregistered none_tx) [
    | yes p ↦
        (committed_segments (suc k) r st, rw e (kept_round k st h p), (st, refl, ground arith))
    | no p ↦
        let (st', run, s') =
          push-IsStack st (deregistered_below r.segments k ++ free) (pos k) s (room_at k h p) in
        (
          committed_segments (suc k) r st',
          rw e (freed_round k st st' h p run),
          (st', refl, ground arith),
        )
  ]

  -- The commit returns: it has committed every segment that is not deregistered and pushed the index of
  -- every one that is, and changed nothing else in the region.
  pub commit_runs :
      (st : Stack) × (commit_transcations_in_epoch r ≡ done (committed_segments r.n_segments r st))
      × IsStack st (deregistered_below r.segments r.n_segments ++ free)
  unfolding commit_transcations_in_epoch
  commit_runs =
      let (r', run, (st, e, s)) =
        for_range_inv Rounds commit_segment r.n_segments 0 r.n_segments r (omega arith) round
          start in
      (st, rw run (ap done e), s)
    where
      start : Rounds 0 r
      start = (
        r.free_seg_indices,
        (λ i. record r { segments = sym (first_changed-zero committed r.segments) i }),
        can.stack,
      )
