-- ===== src/Transactional/Protocol.antt =====
-- What a library sees of `transactional`: which calls with which transaction's identifier.
use cs_453_concurrent_algori.Common.{
  ℕ, zero, suc, ◌≡◌, ◌≢◌, refl, sym, subst, ℕ_discrete, Bool, true, false, ◌==◌, ◌||◌,
  if◌then◌else◌, arith, Bool-cases, inl, inr,
}
use cs_453_concurrent_algori.Word.{success_alloc, nomem_alloc}
use cs_453_concurrent_algori.Reference.{invalid_tx}
use cs_453_concurrent_algori.Transactional.{
  Library, Prog, give, throw, diverge, reads, writes, allocs, frees, Result, value, thrown,
  terminated, endless, Mode, is_read_only, Transaction, abort, run, transaction_alloc, attempt,
  transactional, leaves, is_retry, transaction_retry,
}
use cs_453_concurrent_algori.Common.{none, some}
use cs_453_concurrent_algori.Transactional.Runs.{
  run_reads_ok, run_reads_bad, run_writes_ok, run_writes_bad, run_frees_ok, run_frees_bad,
  run_allocs_ok, run_allocs_nomem, run_allocs_bad,
}

-- An observer of one thread's calls: no transaction is open, one is, or a call came that the interface
-- does not allow.
pub data Watch : Type 0 where
  quiet : Watch
  busy : ℕ → Watch
  broken : Watch

-- `tm_begin` opens a transaction, and none may be open.
abbrev pub watch_begin : Watch → ℕ → Watch
watch_begin quiet tx = if tx == invalid_tx then quiet else busy tx
watch_begin (busy t) tx = broken
watch_begin broken tx = broken

-- An operation or `tm_end` needs its transaction to be open. The transaction stays open where `on` is true.
abbrev pub watch_call : Watch → ℕ → Bool → Watch
watch_call quiet tx on = broken
watch_call (busy t) tx on = if t == tx then (if on then busy t else quiet) else broken
watch_call broken tx on = broken

module _ {S : Type 0} where
  -- The library with the observer
  abbrev pub watched : Library S → Library (S × Watch)
  watched lib = record {
    lib_create =
        λ size align. elim (lib.lib_create size align) [ none ↦ none | some s ↦ some (s, quiet) ];
    lib_start = λ sw. lib.lib_start sw.0;
    lib_begin = λ sw ro. let (s1, tx) = lib.lib_begin sw.0 ro in ((s1, watch_begin sw.1 tx), tx);
    lib_end = λ sw tx. let (s1, ok) = lib.lib_end sw.0 tx in ((s1, watch_call sw.1 tx false), ok);
    lib_read = λ sw tx source size.
        let (s1, ok, content) = lib.lib_read sw.0 tx source size in
        ((s1, watch_call sw.1 tx ok), ok, content);
    lib_write = λ sw tx content size target.
        let (s1, ok) = lib.lib_write sw.0 tx content size target in
        ((s1, watch_call sw.1 tx ok), ok);
    lib_alloc = λ sw tx size.
        let (s1, status, target) = lib.lib_alloc sw.0 tx size in
        (
          (s1, watch_call sw.1 tx (status == success_alloc || status == nomem_alloc)),
          status,
          target,
        );
    lib_free = λ sw tx target.
        let (s1, ok) = lib.lib_free sw.0 tx target in ((s1, watch_call sw.1 tx ok), ok);
  }

  -- What holds behind a closure that was run in transaction `tx`
  record Behind {A : Type 0} (tx : ℕ) (sw : S × Watch) (t : Transaction) (r : Result A)
      : Type 0 where
    same : t.tx ≡ tx
    closed : t.aborted ≡ true → sw.1 ≡ quiet
    open_still : t.aborted ≡ false → sw.1 ≡ busy tx
    not_terminated : r ≢ terminated

  module _ (A : Type 0) (lib : Library S) (tx : ℕ) where
    abbrev Good : S × Watch → Transaction → Prog A → Type 0
    Good sw t p = let (sw1, t1, r) = run (watched lib) sw t p in Behind tx sw1 t1 r

    abbrev fresh : Bool → Transaction
    fresh ro = record { tx = tx; aborted = false; is_ro = ro }

    abbrev End : Type 0
    End = (S × Watch) × Transaction × Result A

    abbrev GoodEnd : End → Type 0
    GoodEnd e = Behind tx e.0 e.1 e.2

    still_open :
        (s : S) (ro : Bool) (r : Result A) → r ≢ terminated → GoodEnd ((s, busy tx), fresh ro, r)
    still_open s ro r h = record {
      same = refl;
      closed = λ e. ground arith;
      open_still = λ e. refl;
      not_terminated = h;
    }

    closed_now :
        (s : S) (ro : Bool) → GoodEnd ((s, quiet), abort (fresh ro), thrown transaction_retry)
    closed_now s ro = record {
      same = refl;
      closed = λ e. refl;
      open_still = λ e. ground arith;
      not_terminated = λ e. ground arith;
    }

    run-Behind : (p : Prog A) (s : S) (ro : Bool) → Good (s, busy tx) (fresh ro) p
    run-Behind (give a) s ro = unfold run in still_open s ro (value a) (λ e. ground arith)
    run-Behind (throw x) s ro = unfold run in still_open s ro (thrown x) (λ e. ground arith)
    run-Behind diverge s ro = unfold run in still_open s ro endless (λ e. ground arith)
    run-Behind (reads source size k) s ro =
        let (s1, ok, v) = lib.lib_read s tx source size in
        elim (Bool-cases ok) [
          | inl e ↦
              subst GoodEnd
                (sym (
                  run_reads_ok (watched lib) (s, busy tx) (fresh ro) source size k (s1, busy tx) v
                    (ground arith)))
                (run-Behind (k v) s1 ro)
          | inr e ↦
              subst GoodEnd
                (sym (
                  run_reads_bad (watched lib) (s, busy tx) (fresh ro) source size k (s1, quiet) v
                    (ground arith)))
                (closed_now s1 ro)
        ]
    run-Behind (writes content size target p) s ro =
        let (s1, ok) = lib.lib_write s tx content size target in
        elim (Bool-cases ok) [
          | inl e ↦
              subst GoodEnd
                (sym (
                  run_writes_ok (watched lib) (s, busy tx) (fresh ro) content size target p
                    (s1, busy tx) (ground arith)))
                (run-Behind p s1 ro)
          | inr e ↦
              subst GoodEnd
                (sym (
                  run_writes_bad (watched lib) (s, busy tx) (fresh ro) content size target p
                    (s1, quiet) (ground arith)))
                (closed_now s1 ro)
        ]
    run-Behind (frees target p) s ro =
        let (s1, ok) = lib.lib_free s tx target in
        elim (Bool-cases ok) [
          | inl e ↦
              subst GoodEnd
                (sym (
                  run_frees_ok (watched lib) (s, busy tx) (fresh ro) target p (s1, busy tx)
                    (ground arith)))
                (run-Behind p s1 ro)
          | inr e ↦
              subst GoodEnd
                (sym (
                  run_frees_bad (watched lib) (s, busy tx) (fresh ro) target p (s1, quiet)
                    (ground arith)))
                (closed_now s1 ro)
        ]
    run-Behind (allocs size k) s ro =
        let (s1, status, a) = lib.lib_alloc s tx size in
        elim (ℕ_discrete status success_alloc) [
          | yes e ↦
              subst GoodEnd
                (sym (
                  run_allocs_ok (watched lib) (s, busy tx) (fresh ro) size k (s1, busy tx) a
                    (ground arith)))
                (run-Behind (k a) s1 ro)
          | no e ↦ elim (ℕ_discrete status nomem_alloc) [
            | yes h ↦
                subst GoodEnd
                  (sym (
                    run_allocs_nomem (watched lib) (s, busy tx) (fresh ro) size k (s1, busy tx) a
                      (ground arith)))
                  (still_open s1 ro (thrown transaction_alloc) (λ q. ground arith))
            | no h ↦
                subst GoodEnd
                  (sym (
                    run_allocs_bad (watched lib) (s, busy tx) (fresh ro) size k (s1, quiet) status a
                      (ground arith) (ground arith) (ground arith)))
                  (closed_now s1 ro)
          ]
        ]

-- A state of the observer behind a call of `transactional`
abbrev Quiet : {S A : Type 0} → (S × Watch) × Result A → Type 0
Quiet o = (o.0.1 ≢ broken) × (o.1 ≢ endless → o.0.1 ≡ quiet)

module _ {S A : Type 0} (lib : Library S) (mode : Mode) (p : Prog A) where
  leaves-Quiet :
      (tx : ℕ) (sw : S × Watch) (t : Transaction) (r : Result A)
      → Behind tx sw t r
      → Quiet (leaves (watched lib) sw t r)
  leaves-Quiet tx (s, w) t r b = elim (Bool-cases t.aborted) [
    | inl e ↦ ground (arith, b.closed, b.not_terminated)
    | inr e ↦ ground (arith, b.open_still, b.not_terminated, b.same)
  ]

  attempt-Quiet : (s : S) → Quiet (attempt (watched lib) (s, quiet) mode p)
  unfolding attempt
  attempt-Quiet s =
      let (s1, tx) = lib.lib_begin s (is_read_only mode) in
      elim (ℕ_discrete tx invalid_tx) [
        | yes e ↦ ground arith
        | no e ↦
            let t : Transaction = record { tx = tx; aborted = false; is_ro = is_read_only mode } in
            let (sw, t2, r) = run (watched lib) (s1, busy tx) t p in
            let q = leaves-Quiet tx sw t2 r (run-Behind A lib tx p s1 (is_read_only mode)) in
            subst Quiet (sym (attempt_runs e)) q
      ]
    where
      attempt_runs :
          (lib.lib_begin s (is_read_only mode)).1 ≢ invalid_tx
          → attempt (watched lib) (s, quiet) mode p ≡ (
              let tx = (lib.lib_begin s (is_read_only mode)).1 in
              let (sw, t2, r) =
                run
                  (watched lib)
                  ((lib.lib_begin s (is_read_only mode)).0, busy tx)
                  (record { tx = tx; aborted = false; is_ro = is_read_only mode })
                  p in
              leaves (watched lib) sw t2 r)
      attempt_runs e = ground arith

  -- Whatever the library answers and whatever the closure does, the observer of the calls of
  -- `transactional` sees none that the interface does not allow: each operation and each `tm_end` is of the
  -- transaction that the last `tm_begin` opened, none comes behind an operation that failed, and no
  -- transaction is begun while one is open. If the call returns, no transaction is left open.
  pub transactional-Quiet :
      (rounds : ℕ) (s : S)
      → ((transactional (watched lib) rounds (s, quiet) mode p).0.1 ≢ broken)
        × ((transactional (watched lib) rounds (s, quiet) mode p).1 ≢ endless
            → (transactional (watched lib) rounds (s, quiet) mode p).0.1 ≡ quiet)
  unfolding transactional
  transactional-Quiet zero s = ground arith
  transactional-Quiet (suc rounds) s =
      let a = attempt-Quiet s in
      elim (Bool-cases (is_retry (attempt (watched lib) (s, quiet) mode p).1)) [
        | inl e ↦
            let now : (attempt (watched lib) (s, quiet) mode p).0.1 ≡ quiet = ground (arith, a) in
            let next = transactional-Quiet rounds (attempt (watched lib) (s, quiet) mode p).0.0 in
            ground (arith, next)
        | inr e ↦ ground (arith, a)
      ]
