-- ===== src/Word/Consequences.antt =====
-- What a transaction sees of its own writes and of those of others.
use cs_453_concurrent_algori.Common.{
  ℕ, ◌≡◌, ◌≢◌, ◌∙◌, sym, ap, subst, true, false, List, Outcome, done, arith,
}
use cs_453_concurrent_algori.Memory.{Bytes}
use cs_453_concurrent_algori.Memory.Slices.{slice}
use cs_453_concurrent_algori.Segment.{Segment, none_tx}
use cs_453_concurrent_algori.Word.{success_alloc, abort_alloc, word_exists, read_word, write_word}
use cs_453_concurrent_algori.Word.Spec.{View, view, dirty, spec_read, spec_write}
use cs_453_concurrent_algori.Word.Frame.{Frame}
use cs_453_concurrent_algori.Word.Reading.{Copied, read_word-Reads, read_word_ro_committed}
use cs_453_concurrent_algori.Word.Writing.{Stored, write_word-Writes}

Frame-exists :
    {seg seg' : Segment} {i : ℕ}
    → Frame seg i seg'
    → (j : ℕ) → word_exists seg j ≡ true
    → word_exists seg' j ≡ true
Frame-exists f j e = rw (f.pointers, f.n_words) e

-- An abstract write that is accepted
stored_accepted :
    (tx : ℕ) (bytes : List ℕ) (v after : View) (status : ℕ)
    → Stored v (spec_write tx bytes v) after status
    → status ≡ success_alloc
    → after ≡ record v { access = dirty tx bytes }
stored_accepted tx bytes v after status st e = ground arith

-- An access of another transaction to a word that was written
stored_other :
    (tx u : ℕ) (p bytes : List ℕ) (v after : View) (status : ℕ)
    → u ≢ tx
    → v.access ≡ dirty tx p
    → Stored v (spec_write u bytes v) after status
    → status ≡ abort_alloc
stored_other tx u p bytes v after status ne e st = ground arith

Copied-other :
    (tx u align : ℕ) (p : List ℕ) (v : View) (target : Bytes) (at : ℕ) (target' : Bytes)
    (status : ℕ)
    → u ≢ tx
    → v.access ≡ dirty tx p
    → Copied align target at (spec_read u v).0 target' status
    → (status ≡ abort_alloc) × (target' ≡ target)
Copied-other tx u align p v target at target' status ne e c = ground arith

Copied-own :
    (tx align : ℕ) (p : List ℕ) (v : View) (target : Bytes) (at : ℕ) (target' : Bytes) (status : ℕ)
    → v.access ≡ dirty tx p
    → Copied align target at (spec_read tx v).0 target' status
    → (status ≡ success_alloc) × (slice target' at align ≡ p)
Copied-own tx align p v target at target' status e c = ground arith

module _ (seg : Segment) (tx i : ℕ) (source : Bytes) (from : ℕ) (target : Bytes) (at : ℕ)
    (exists : word_exists seg i ≡ true) (unlocked : (seg.control_lock i).mutex ≡ false)
    (real : tx ≢ none_tx) (seg' : Segment)
    (accepted : write_word seg tx i source from ≡ done (seg', success_alloc)) where
  accepted-dirty :
      (view seg' i ≡ record (view seg i) { access = dirty tx (slice source from seg.align) })
      × Frame seg i seg'
  accepted-dirty =
      let (s, status, run, w) = write_word-Writes seg tx i source from exists unlocked real in
      let same : ◌≡◌ {A = Outcome (Segment × ℕ)} (done (s, status)) (done (seg', success_alloc)) =
        sym run ∙ accepted in
      let here : s ≡ seg' = cc in
      let good : status ≡ success_alloc = cc in
      (
        subst
            (λ t.
              view t i ≡ record (view seg i) { access = dirty tx (slice source from seg.align) })
            here
            (stored_accepted tx (slice source from seg.align) (view seg i) (view s i) status
              w.stored good),
        subst (Frame seg i) here w.frame,
      )

  access' : (view seg' i).access ≡ dirty tx (slice source from seg.align)
  access' = ap (λ (v : View). v.access) accepted-dirty.0

  exists' : word_exists seg' i ≡ true
  exists' = Frame-exists accepted-dirty.1 i exists

  unlocked' : (seg'.control_lock i).mutex ≡ false
  unlocked' = accepted-dirty.1.locks i ∙ unlocked

  -- A transaction whose write to a word was accepted reads the bytes that it wrote. (The word exists, its
  -- lock was free, and the transaction is not `none_tx`.)
  pub read_own_write :
      (seg'' : Segment) × (target' : Bytes) × (read_word seg' tx false i target at
        ≡ done (seg'', target', success_alloc))
      × (slice target' at seg.align ≡ slice source from seg.align)
  read_own_write =
      let (s, t, status, run, r) = read_word-Reads seg' tx i target at exists' unlocked' real in
      let (good, bytes) =
        Copied-own tx seg'.align (slice source from seg.align) (view seg' i) target at t status
          access' r.copied in
      (
        s,
        t,
        rw good at run,
        subst (λ a. slice t at a ≡ slice source from seg.align) accepted-dirty.1.align bytes,
      )

  -- Behind a write of a transaction to a word that was accepted, every other transaction that also writes
  -- is refused there, reading or writing, and its private memory is left alone; one that only reads gets
  -- the bytes that were committed before the write. (The word exists, its lock was free, and neither
  -- transaction is `none_tx`.)
  pub write_isolated :
      (u : ℕ)
      → u ≢ tx
      → u ≢ none_tx
      → ((seg'' : Segment) × (read_word seg' u false i target at
            ≡ done (seg'', target, abort_alloc)))
        × ((seg'' : Segment) × (write_word seg' u i source from ≡ done (seg'', abort_alloc)))
        × ((target' : Bytes) × (read_word seg' u true i target at
              ≡ done (seg', target', success_alloc))
            × (slice target' at seg.align ≡ (view seg i).committed))
  write_isolated u ne real_u =
      let p = slice source from seg.align in
      let (s1, t1, st1, run1, r1) = read_word-Reads seg' u i target at exists' unlocked' real_u in
      let (s2, st2, run2, w2) = write_word-Writes seg' u i source from exists' unlocked' real_u in
      let (t3, run3, c3) = read_word_ro_committed seg' u i target at exists' in
      let (bad, same) =
        Copied-other tx u seg'.align p (view seg' i) target at t1 st1 ne access' r1.copied in
      let bad2 =
        stored_other tx u p (slice source from seg'.align) (view seg' i) (view s2 i) st2 ne access'
          w2.stored in
      (
        (s1, rw (bad, same) at run1),
        (s2, rw bad2 at run2),
        (
          t3,
          run3,
          subst (λ a. slice t3 at a ≡ (view seg i).committed) accepted-dirty.1.align
              (c3.1 ∙ ap (λ (v : View). v.committed) accepted-dirty.0),
        ),
      )
