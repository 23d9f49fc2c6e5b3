-- ===== src/Transactional/Rounds.antt =====
-- A closure's operations in one round of `transactional`, over a library that does what its interface says.
use cs_453_concurrent_algori.Common.{
  ℕ, ◌≡◌, refl, sym, subst, ℕ_discrete, true, false, arith, Bool-cases, inl, inr, update,
}
use cs_453_concurrent_algori.Word.{success_alloc, nomem_alloc}
use cs_453_concurrent_algori.Transactional.{
  Library, Prog, give, throw, diverge, reads, writes, allocs, frees, Result, value, thrown, endless,
  Mode, is_read_only, Transaction, abort, run, transaction_retry, transaction_alloc,
}
use cs_453_concurrent_algori.Transactional.Runs.{
  run_reads_ok, run_reads_bad, run_writes_ok, run_writes_bad, run_frees_ok, run_frees_bad,
  run_allocs_ok, run_allocs_nomem, run_allocs_bad,
}
use cs_453_concurrent_algori.Transactional.Atomic.{Memory, granted, without, word, Alone, Fits}
use cs_453_concurrent_algori.Transactional.Promise.{Lawful}

-- A transaction as its constructor makes it
abbrev pub fresh : Mode → ℕ → Transaction
fresh mode tx = record { tx = tx; aborted = false; is_ro = is_read_only mode }

module _ {S : Type 0} (lib : Library S) (mode : Mode) (law : Lawful lib mode) where
  -- A closure behind its operations, where transaction `tx` saw `m` before them: it was refused, or it has
  -- done one of the things that it may do alone.
  pub record Behind {A : Type 0} (m c : Memory) (tx : ℕ) (p : Prog A)
      (o : S × Transaction × Result A) : Type 0 where
    pub same : o.1.tx ≡ tx
    pub refused : o.1.aborted ≡ true → (o.2 ≡ thrown transaction_retry) × law.Idle o.0 c
    pub alone : o.1.aborted ≡ false → (m' : Memory) × Alone m p (m', o.2) × law.Open o.0 tx m' c

  ended :
      {A : Type 0} (p : Prog A) (r : Result A) (s : S) (tx : ℕ) (m c : Memory)
      → Alone m p (m, r)
      → law.Open s tx m c
      → Behind m c tx p (s, fresh mode tx, r)
  ended p r s tx m c a o = record {
    same = refl;
    refused = λ h. absurd (ground arith);
    alone = λ h. (m, a, o);
  }

  refuses :
      {A : Type 0} (p : Prog A) (s1 : S) (tx : ℕ) (m c : Memory)
      → law.Idle s1 c
      → Behind m c tx p (s1, abort (fresh mode tx), thrown transaction_retry)
  refuses p s1 tx m c i = record {
    same = refl;
    refused = λ h. (refl, i);
    alone = λ h. absurd (ground arith);
  }

  -- The rest of a closure behind an operation that succeeded
  goes_on :
      {A : Type 0} (p q : Prog A) (m m1 c : Memory) (tx : ℕ) (o o1 : S × Transaction × Result A)
      → o ≡ o1
      → ((x : Memory × Result A) → Alone m1 q x → Alone m p x)
      → Behind m1 c tx q o1
      → Behind m c tx p o
  goes_on p q m m1 c tx o o1 e x b = subst (Behind m c tx p) (sym e) (record {
    same = b.same;
    refused = b.refused;
    alone = λ k. let (m', a, op) = b.alone k in (m', x (m', o1.2) a, op);
  })

  pub run-Behind :
      {A : Type 0} (p : Prog A) (s : S) (tx : ℕ) (m c : Memory)
      → law.Open s tx m c
      → Fits mode m p
      → Behind m c tx p (run lib s (fresh mode tx) p)
  run-Behind (give a) s tx m c o f = unfold run in ended (give a) (value a) s tx m c refl o
  run-Behind (throw x) s tx m c o f = unfold run in ended (throw x) (thrown x) s tx m c refl o
  run-Behind diverge s tx m c o f = unfold run in ended diverge endless s tx m c refl o
  run-Behind (reads source size k) s tx m c o (f, g, h) =
      let (s1, ok, got) = lib.lib_read s tx source size in
      let call : lib.lib_read s tx source word ≡ (s1, ok, got) = ground arith in
      elim (Bool-cases ok) [
        | inl e ↦
            let (seen, on) = law.read_done s s1 tx source got m c o g (ground arith) in
            let here : got ≡ m.content source = seen in
            goes_on (reads source size k) (k (m.content source)) m m c tx
              (run lib s (fresh mode tx) (reads source size k))
              (run lib s1 (fresh mode tx) (k (m.content source)))
              (run_reads_ok lib s (fresh mode tx) source size k s1 (m.content source)
                (ground arith))
              (λ x a. a) (run-Behind (k (m.content source)) s1 tx m c on h)
        | inr e ↦
            subst (Behind m c tx (reads source size k))
              (sym (run_reads_bad lib s (fresh mode tx) source size k s1 got (ground arith)))
              (refuses (reads source size k) s1 tx m c
                (law.read_refused s s1 tx source got m c o g (ground arith)))
      ]
  run-Behind (writes content size target p) s tx m c o (f, g, h, q) =
      let (s1, ok) = lib.lib_write s tx content size target in
      let call : lib.lib_write s tx content word target ≡ (s1, ok) = ground arith in
      elim (Bool-cases ok) [
        | inl e ↦
            let m1 : Memory = record m { content = update m.content target content } in
            goes_on (writes content size target p) p m m1 c tx
              (run lib s (fresh mode tx) (writes content size target p))
              (run lib s1 (fresh mode tx) p)
              (run_writes_ok lib s (fresh mode tx) content size target p s1 (ground arith))
              (λ x a. a)
              (run-Behind p s1 tx m1 c
                (law.write_done s s1 tx content target m c f o h (ground arith)) q)
        | inr e ↦
            subst (Behind m c tx (writes content size target p))
              (sym (run_writes_bad lib s (fresh mode tx) content size target p s1 (ground arith)))
              (refuses (writes content size target p) s1 tx m c
                (law.write_refused s s1 tx content target m c f o h (ground arith)))
      ]
  run-Behind (frees target p) s tx m c o (f, g, q) =
      let (s1, ok) = lib.lib_free s tx target in
      let call : lib.lib_free s tx target ≡ (s1, ok) = refl in
      elim (Bool-cases ok) [
        | inl e ↦
            let m1 : Memory = record m { blocks = without target m.blocks } in
            goes_on (frees target p) p m m1 c tx (run lib s (fresh mode tx) (frees target p))
              (run lib s1 (fresh mode tx) p)
              (run_frees_ok lib s (fresh mode tx) target p s1 (ground arith)) (λ x a. a)
              (run-Behind p s1 tx m1 c (law.free_done s s1 tx target m c f o g (ground arith)) q)
        | inr e ↦
            subst (Behind m c tx (frees target p))
              (sym (run_frees_bad lib s (fresh mode tx) target p s1 (ground arith)))
              (refuses (frees target p) s1 tx m c
                (law.free_refused s s1 tx target m c f o g (ground arith)))
      ]
  run-Behind (allocs size k) s tx m c o (f, g, h, q) =
      let (s1, status, a) = lib.lib_alloc s tx size in
      let call : lib.lib_alloc s tx size ≡ (s1, status, a) = refl in
      elim (ℕ_discrete status success_alloc) [
        | yes e ↦
            let (new, on) = law.alloc_done s s1 tx size a m c f o g h (ground arith) in
            goes_on (allocs size k) (k a) m (granted m a size) c tx
              (run lib s (fresh mode tx) (allocs size k)) (run lib s1 (fresh mode tx) (k a))
              (run_allocs_ok lib s (fresh mode tx) size k s1 a (ground arith))
              (λ x b. inl (a, new, b)) (run-Behind (k a) s1 tx (granted m a size) c on (q a new))
        | no e ↦ elim (ℕ_discrete status nomem_alloc) [
          | yes i ↦
              subst (Behind m c tx (allocs size k))
                (sym (run_allocs_nomem lib s (fresh mode tx) size k s1 a (ground arith)))
                (ended (allocs size k) (thrown transaction_alloc) s1 tx m c (inr refl)
                  (law.alloc_nomem s s1 tx size a m c f o g h (ground arith)))
          | no i ↦
              subst (Behind m c tx (allocs size k))
                (sym (
                  run_allocs_bad lib s (fresh mode tx) size k s1 status a call (ground arith)
                    (ground arith)))
                (refuses (allocs size k) s1 tx m c
                  (law.alloc_refused s s1 tx size status a m c f o g h e i call))
        ]
      ]
