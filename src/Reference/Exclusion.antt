-- ===== src/Reference/Exclusion.antt =====
-- Threads that run transactions over the region of reference/tm.c, interleaved in any order.
use cs_453_concurrent_algori.Common.{
  ℕ, ◌<◌, ◌≡◌, ◌≢◌, ◌==◌, ◌⊎◌, refl, Bool, true, false, if◌then◌else◌, update, Option, some, done,
  arith,
}
use cs_453_concurrent_algori.Common.Counting.{total, total-update, total_zero, weight-le-total}
use cs_453_concurrent_algori.Memory.{Bytes}
use cs_453_concurrent_algori.Reference.{
  SharedRegion, SharedLock, read_only_tx, tm_create, tm_begin, tm_end, tm_write, tm_alloc, tm_free,
}

-- A thread is in no transaction, or in one.
pub data Place : Type 0 where
  outside : Place
  inside : ℕ → Place

pub record State : Type 0 where
  pub region : SharedRegion
  pub place : ℕ → Place

module _ (n : ℕ) where
  -- A step of one of the threads below `n`. A read changes no shared state.
  pub data Step (s : State) : State → Type 0 where
    begins :
        (i : ℕ) (is_ro : Bool) {r : SharedRegion} {tx : ℕ}
        → i < n
        → s.place i ≡ outside
        → tm_begin s.region is_ro ≡ done (r, tx)
        → Step s (record { region = r; place = update s.place i (inside tx) })
    ends :
        (i : ℕ) {r : SharedRegion} {tx : ℕ}
        → i < n
        → s.place i ≡ inside tx
        → tm_end s.region tx ≡ done (r, true)
        → Step s (record { region = r; place = update s.place i outside })
    writes :
        (i : ℕ) (source : Bytes) (from size target : ℕ) {tx : ℕ}
        → i < n
        → s.place i ≡ inside tx
        → Step s
            (record { region = (tm_write s.region tx source from size target).0; place = s.place })
    allocates :
        (i : ℕ) (block : Option ℕ) (size : ℕ) {tx : ℕ}
        → i < n
        → s.place i ≡ inside tx
        → Step s (record { region = (tm_alloc block s.region size).0; place = s.place })
    frees :
        (i segment : ℕ) {r : SharedRegion} {tx : ℕ}
        → i < n
        → s.place i ≡ inside tx
        → tm_free s.region segment ≡ done (r, true)
        → Step s (record { region = r; place = s.place })

  -- The states that threads reach from a region, none of them in a transaction
  pub data Reach (r : SharedRegion) : State → Type 0 where
    start : Reach r (record { region = r; place = λ _. outside })
    later : {s t : State} → Reach r s → Step s t → Reach r t

-- Whether a thread is in a transaction that only reads, or in one that writes
abbrev pub reads : Place → ℕ
reads outside = 0
reads (inside tx) = if tx == read_only_tx then 1 else 0

abbrev pub writing : Place → ℕ
writing outside = 0
writing (inside tx) = if tx == read_only_tx then 0 else 1

abbrev pub bit : Bool → ℕ
bit b = if b then 1 else 0

-- The lock counts the transactions, and no one reads beside a writer.
record LockInv (n : ℕ) (l : SharedLock) (place : ℕ → Place) : Type 0 where
  readers : l.readers ≡ total reads n place
  writers : bit l.writer ≡ total writing n place
  apart : (l.writer ≡ false) ⊎ (l.readers ≡ 0)

begin-LockInv :
    (n : ℕ) (r r' : SharedRegion) (place : ℕ → Place) (i tx : ℕ) (is_ro : Bool)
    → LockInv n r.lock place
    → i < n
    → place i ≡ outside
    → tm_begin r is_ro ≡ done (r', tx)
    → LockInv n r'.lock (update place i (inside tx))
unfolding tm_begin
begin-LockInv n r r' place i tx is_ro inv lt e run = record {
  readers = ground (arith, inv.readers, total-update reads n place i (inside tx) lt);
  writers = ground (arith, inv.writers, total-update writing n place i (inside tx) lt);
  apart = ground (arith, inv.apart);
}

end-LockInv :
    (n : ℕ) (r r' : SharedRegion) (place : ℕ → Place) (i tx : ℕ)
    → LockInv n r.lock place
    → i < n
    → place i ≡ inside tx
    → tm_end r tx ≡ done (r', true)
    → LockInv n r'.lock (update place i outside)
unfolding tm_end
end-LockInv n r r' place i tx inv lt e run =
    let r_sum = total-update reads n place i outside lt in
    let w_sum = total-update writing n place i outside lt in
    let r_in = weight-le-total reads n place i lt in
    let w_in = weight-le-total writing n place i lt in
    record {
      readers = ground (arith, inv.readers, inv.writers, inv.apart, r_sum, w_sum, r_in, w_in);
      writers = ground (arith, inv.readers, inv.writers, inv.apart, r_sum, w_sum, r_in, w_in);
      apart = ground (arith, inv.readers, inv.writers, inv.apart, r_sum, w_sum, r_in, w_in);
    }

tm_write-lock :
    (r : SharedRegion) (tx : ℕ) (source : Bytes) (from size target : ℕ)
    → (tm_write r tx source from size target).0.lock ≡ r.lock
unfolding tm_write
tm_write-lock r tx source from size target = refl

tm_alloc-lock :
    (block : Option ℕ) (r : SharedRegion) (size : ℕ) → (tm_alloc block r size).0.lock ≡ r.lock
unfolding tm_alloc
tm_alloc-lock block r size = ground arith

tm_free-lock :
    (r r' : SharedRegion) (segment : ℕ) → tm_free r segment ≡ done (r', true) → r'.lock ≡ r.lock
unfolding tm_free
tm_free-lock r r' segment e = ground arith

Step-LockInv :
    {n : ℕ} {s t : State}
    → Step n s t
    → LockInv n s.region.lock s.place
    → LockInv n t.region.lock t.place
Step-LockInv {n} {s} (begins i is_ro {r} {tx} lt e run) inv =
    begin-LockInv n s.region r s.place i tx is_ro inv lt e run
Step-LockInv {n} {s} (ends i {r} {tx} lt e run) inv =
    end-LockInv n s.region r s.place i tx inv lt e run
Step-LockInv {n} {s} (writes i source from size target {tx} lt e) inv =
    rw (tm_write-lock s.region tx source from size target) inv
Step-LockInv {n} {s} (allocates i block size lt e) inv = rw (tm_alloc-lock block s.region size) inv
Step-LockInv {n} {s} (frees i segment {r} lt e run) inv =
    rw (tm_free-lock s.region r segment run) inv

Reach-LockInv :
    {n : ℕ} {r : SharedRegion} {s : State}
    → LockInv n r.lock (λ _. outside)
    → Reach n r s
    → LockInv n s.region.lock s.place
Reach-LockInv inv start = inv
Reach-LockInv inv (later q st) = Step-LockInv st (Reach-LockInv inv q)

tm_create-LockInv :
    (n : ℕ) (region_ok : Bool) (block : Option ℕ) (lock_ok : Bool) (raw r : SharedRegion)
    (size align : ℕ)
    → tm_create region_ok block lock_ok raw size align ≡ some r
    → LockInv n r.lock (λ _. outside)
unfolding tm_create
tm_create-LockInv n region_ok block lock_ok raw r size align e = record {
  readers = ground (arith, total_zero reads n (λ _. outside) (λ j h. refl));
  writers = ground (arith, total_zero writing n (λ _. outside) (λ j h. refl));
  apart = ground arith;
}

both_zero : (p : Place) → reads p ≡ 0 → writing p ≡ 0 → p ≡ outside
both_zero outside e h = refl
both_zero (inside tx) e h = ground arith

-- In every state that `n` threads reach from a region that `tm_create` made, a thread in a transaction that
-- is not the read-only one is the only thread in a transaction.
pub writer_alone :
    (n : ℕ) (region_ok : Bool) (block : Option ℕ) (lock_ok : Bool) (raw r : SharedRegion)
    (size align : ℕ) (s : State)
    → tm_create region_ok block lock_ok raw size align ≡ some r
    → Reach n r s
    → (i j tx : ℕ) → i < n
    → j < n
    → j ≢ i
    → s.place i ≡ inside tx
    → tx ≢ read_only_tx
    → s.place j ≡ outside
writer_alone n region_ok block lock_ok raw r size align s made reach i j tx hi hj ne e w =
    let inv =
      Reach-LockInv (tm_create-LockInv n region_ok block lock_ok raw r size align made) reach in
    let mine : writing (s.place i) ≡ 1 = ground arith in
    let some_writer = weight-le-total writing n s.place i hi in
    let held : s.region.lock.writer ≡ true = ground (arith, inv.writers) in
    let none_reads : total reads n s.place ≡ 0 = ground (arith, inv.readers, inv.apart) in
    let one : total writing n s.place ≡ 1 = ground (arith, inv.writers) in
    let moved = total-update writing n s.place i outside hi in
    let others : total writing n (update s.place i outside) ≡ 0 = omega arith in
    let j_writes : writing (s.place j) ≡ 0 =
      ground (arith, weight-le-total writing n (update s.place i outside) j hj) in
    let j_reads : reads (s.place j) ≡ 0 = omega (arith, weight-le-total reads n s.place j hj) in
    both_zero (s.place j) j_reads j_writes
