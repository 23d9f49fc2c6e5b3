-- ===== src/Transactional/Runs.antt =====
-- One operation of a closure, by what the library answers.
use cs_453_concurrent_algori.Common.{ℕ, ◌≡◌, true, false, ◌==◌, arith}
use cs_453_concurrent_algori.Word.{success_alloc, nomem_alloc}
use cs_453_concurrent_algori.Transactional.{
  Library, Prog, reads, writes, allocs, frees, thrown, transaction_alloc, Transaction, abort, run,
  transaction_retry,
}

module _ {S A : Type 0} (lib : Library S) (s : S) (t : Transaction) where
  pub run_reads_ok :
      (source size : ℕ) (k : ℕ → Prog A) (s1 : S) (v : ℕ)
      → lib.lib_read s t.tx source size ≡ (s1, true, v)
      → run lib s t (reads source size k) ≡ run lib s1 t (k v)
  unfolding run
  run_reads_ok source size k s1 v e = ground arith

  pub run_reads_bad :
      (source size : ℕ) (k : ℕ → Prog A) (s1 : S) (v : ℕ)
      → lib.lib_read s t.tx source size ≡ (s1, false, v)
      → run lib s t (reads source size k) ≡ (s1, abort t, thrown transaction_retry)
  unfolding run
  run_reads_bad source size k s1 v e = ground arith

  pub run_writes_ok :
      (content size target : ℕ) (p : Prog A) (s1 : S)
      → lib.lib_write s t.tx content size target ≡ (s1, true)
      → run lib s t (writes content size target p) ≡ run lib s1 t p
  unfolding run
  run_writes_ok content size target p s1 e = ground arith

  pub run_writes_bad :
      (content size target : ℕ) (p : Prog A) (s1 : S)
      → lib.lib_write s t.tx content size target ≡ (s1, false)
      → run lib s t (writes content size target p) ≡ (s1, abort t, thrown transaction_retry)
  unfolding run
  run_writes_bad content size target p s1 e = ground arith

  pub run_frees_ok :
      (target : ℕ) (p : Prog A) (s1 : S)
      → lib.lib_free s t.tx target ≡ (s1, true)
      → run lib s t (frees target p) ≡ run lib s1 t p
  unfolding run
  run_frees_ok target p s1 e = ground arith

  pub run_frees_bad :
      (target : ℕ) (p : Prog A) (s1 : S)
      → lib.lib_free s t.tx target ≡ (s1, false)
      → run lib s t (frees target p) ≡ (s1, abort t, thrown transaction_retry)
  unfolding run
  run_frees_bad target p s1 e = ground arith

  pub run_allocs_ok :
      (size : ℕ) (k : ℕ → Prog A) (s1 : S) (a : ℕ)
      → lib.lib_alloc s t.tx size ≡ (s1, success_alloc, a)
      → run lib s t (allocs size k) ≡ run lib s1 t (k a)
  unfolding run
  run_allocs_ok size k s1 a e = ground arith

  pub run_allocs_nomem :
      (size : ℕ) (k : ℕ → Prog A) (s1 : S) (a : ℕ)
      → lib.lib_alloc s t.tx size ≡ (s1, nomem_alloc, a)
      → run lib s t (allocs size k) ≡ (s1, t, thrown transaction_alloc)
  unfolding run
  run_allocs_nomem size k s1 a e = ground arith

  pub run_allocs_bad :
      (size : ℕ) (k : ℕ → Prog A) (s1 : S) (status a : ℕ)
      → lib.lib_alloc s t.tx size ≡ (s1, status, a)
      → (status == success_alloc) ≡ false
      → (status == nomem_alloc) ≡ false
      → run lib s t (allocs size k) ≡ (s1, abort t, thrown transaction_retry)
  unfolding run
  run_allocs_bad size k s1 status a e p q = ground arith
