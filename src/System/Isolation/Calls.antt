-- ===== src/System/Isolation/Calls.antt =====
-- Which calls keep the committed bytes of every word.
use cs_453_concurrent_algori.Common.{
  ℕ, ◌*◌, ◌≡◌, ◌⊎◌, ◌∙◌, refl, Bool, true, false, done, >>=-eq-done, for_range, for_range_keeps,
  arith, ℕ_discrete, inl, inr,
}
use cs_453_concurrent_algori.Common.Int.{is_pos}
use cs_453_concurrent_algori.Memory.{Bytes}
use cs_453_concurrent_algori.Memory.Slices.{slice-memcpy_apart, words_apart}
use cs_453_concurrent_algori.Segment.{Segment}
use cs_453_concurrent_algori.Word.{read_word, write_word, write_to_correct_copy}
use cs_453_concurrent_algori.Word.Spec.{committed_bytes}
use cs_453_concurrent_algori.Word.Runs.{cycle, owned}
use cs_453_concurrent_algori.Batcher.{Entry}
use cs_453_concurrent_algori.Region.{Region, segment_at}
use cs_453_concurrent_algori.Epoch.{abort_word, abort_segment, abort_transaction_tx, leave_batcher}
use cs_453_concurrent_algori.Tm.{tm_begin, tm_begin_woken, tm_free}
use cs_453_concurrent_algori.System.Batch.{abort_false, unlocked}

-- The committed bytes of every word of a segment, and of a region, are the same.
abbrev pub Kept : Segment → Segment → Type 0
Kept seg seg' = (j : ℕ) → committed_bytes seg' j ≡ committed_bytes seg j

abbrev pub KeptAll : Region → Region → Type 0
KeptAll r r' = (i j : ℕ) → committed_bytes (r'.segments i) j ≡ committed_bytes (r.segments i) j

pub read_word-Kept :
    (seg seg' : Segment) (tx : ℕ) (ro : Bool) (i : ℕ) (target target' : Bytes) (at status : ℕ)
    → read_word seg tx ro i target at ≡ done (seg', target', status)
    → Kept seg seg'
unfolding read_word
read_word-Kept seg seg' tx ro i target target' at status e j = ground arith

store-Kept :
    (seg : Segment) (i : ℕ) (source : Bytes) (from : ℕ)
    → Kept seg (write_to_correct_copy i source from seg)
unfolding write_to_correct_copy
store-Kept seg i source from j = elim (ℕ_discrete j i) [
  | yes e ↦ ground arith
  | no h ↦
      let apart = λ (block : Bytes).
        slice-memcpy_apart block (i * seg.align) source from seg.align (j * seg.align) seg.align
          (words_apart j i seg.align h) in
      let a = apart seg.words_array_a in let b = apart seg.words_array_b in ground arith
]

-- The segment behind a write that returned
write_word-results :
    (seg seg' : Segment) (tx i : ℕ) (source : Bytes) (from status : ℕ)
    → write_word seg tx i source from ≡ done (seg', status)
    → (seg' ≡ seg)
      ⊎ (seg' ≡ cycle seg i)
      ⊎ (seg' ≡ write_to_correct_copy i source from seg)
      ⊎ (seg' ≡ write_to_correct_copy i source from (cycle (owned seg tx i) i))
unfolding write_word
write_word-results seg seg' tx i source from status e = ground arith

owned-Kept : (seg : Segment) (tx i : ℕ) → Kept seg (cycle (owned seg tx i) i)
owned-Kept seg tx i j = ground arith

pub write_word-Kept :
    (seg seg' : Segment) (tx i : ℕ) (source : Bytes) (from status : ℕ)
    → write_word seg tx i source from ≡ done (seg', status)
    → Kept seg seg'
write_word-Kept seg seg' tx i source from status e j =
    elim (write_word-results seg seg' tx i source from status e) [
      | inl q ↦ ground arith
      | inr (inl q) ↦ ground arith
      | inr (inr (inl q)) ↦ ground (arith, q, store-Kept seg i source from j)
      | inr (inr (inr q)) ↦
          ground
            (arith, q, store-Kept (cycle (owned seg tx i) i) i source from j, owned-Kept seg tx i j)
    ]

abort_word-Kept : (tx k : ℕ) (seg seg' : Segment) → abort_word tx k seg ≡ done seg' → Kept seg seg'
unfolding abort_word
abort_word-Kept tx k seg seg' e j = ground arith

abort_words-Kept :
    (tx : ℕ) (seg seg' : Segment)
    → for_range seg.n_words 0 (abort_word tx) seg ≡ done seg'
    → Kept seg seg'
abort_words-Kept tx seg seg' e =
    for_range_keeps Kept (abort_word tx) (λ s j. refl) (λ s t u p q j. q j ∙ p j)
      (abort_word-Kept tx) seg.n_words 0 seg seg' e

abort_segment-KeptAll : (tx k : ℕ) (r r' : Region) → abort_segment tx k r ≡ done r' → KeptAll r r'
unfolding abort_segment
abort_segment-KeptAll tx k r r' e i j =
    let (seg, found, rest) = >>=-eq-done (segment_at r k) _ e in
    let (seg1, run, last) = >>=-eq-done (for_range seg.n_words 0 (abort_word tx) seg) _ rest in
    ground (arith, found, last, abort_words-Kept tx seg seg1 run j)

aborted-KeptAll :
    (r r' : Region) (tx : ℕ)
    → for_range r.n_segments 0 (abort_segment tx) r ≡ done r'
    → KeptAll r r'
aborted-KeptAll r r' tx e =
    for_range_keeps KeptAll (abort_segment tx) (λ s i j. refl) (λ s t u p q i j. q i j ∙ p i j)
      (abort_segment-KeptAll tx) r.n_segments 0 r r' e

-- A transaction leaves that is not the last one of its epoch.
pub leave-KeptAll :
    (r r' : Region) (tx : ℕ) (x : Bool)
    → is_pos r.batcher.n_remaining 1 ≡ false
    → leave_batcher r tx ≡ done (r', x)
    → KeptAll r r'
unfolding leave_batcher
leave-KeptAll r r' tx x more e i j = ground arith

abort_segment-batcher :
    (tx k : ℕ) (r r' : Region) → abort_segment tx k r ≡ done r' → r'.batcher ≡ r.batcher
unfolding abort_segment
abort_segment-batcher tx k r r' e = ground arith

pub abort-KeptAll :
    (r r' : Region) (tx : ℕ) (x : Bool)
    → is_pos r.batcher.n_remaining 1 ≡ false
    → abort_transaction_tx r tx ≡ done (r', x)
    → KeptAll r r'
unfolding abort_transaction_tx
abort-KeptAll r r' tx x more e i j =
    let (t, run, rest) = >>=-eq-done (for_range r.n_segments 0 (abort_segment tx) r) _ e in
    let ((u, y), left, last) = >>=-eq-done (leave_batcher t tx) _ rest in
    let same : t.batcher ≡ r.batcher =
      for_range_keeps (λ a b. b.batcher ≡ a.batcher) (abort_segment tx) (λ s. refl)
        (λ s t u p q. q ∙ p) (abort_segment-batcher tx) r.n_segments 0 r t run in
    let more' : is_pos t.batcher.n_remaining 1 ≡ false = rw same more in
    ground (arith, last, leave-KeptAll t u tx y more' left i j, aborted-KeptAll r t tx run i j)

pub tm_free-KeptAll :
    (r r' : Region) (tx target : ℕ) → tm_free r tx target ≡ done (r', true) → KeptAll r r'
unfolding tm_free
tm_free-KeptAll r r' tx target e i j = ground (arith, abort_false (unlocked r) r' tx true)

pub tm_free_aborts-KeptAll :
    (r r' : Region) (tx target : ℕ)
    → is_pos r.batcher.n_remaining 1 ≡ false
    → tm_free r tx target ≡ done (r', false)
    → KeptAll r r'
unfolding tm_free
tm_free_aborts-KeptAll r r' tx target more e i j = ground (
  arith,
  λ (q : abort_transaction_tx (unlocked r) tx ≡ done (r', false)).
      abort-KeptAll (unlocked r) r' tx false more q i j,
)

pub tm_begin-KeptAll :
    (r r' : Region) (ro : Bool) (x : Entry) → tm_begin r ro ≡ done (r', x) → KeptAll r r'
unfolding tm_begin
tm_begin-KeptAll r r' ro x e i j = ground arith

pub tm_begin_woken-KeptAll :
    (r r' : Region) (ro : Bool) (id : ℕ) → tm_begin_woken r ro ≡ done (r', id) → KeptAll r r'
unfolding tm_begin_woken
tm_begin_woken-KeptAll r r' ro id e i j = ground arith
