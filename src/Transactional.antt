-- ===== src/Transactional.antt =====
-- grading/transactional.hpp: transactions over a library that is loaded at run time. The library is a
-- parameter, a record of its functions over a state of its own; a private block that it reads into or
-- writes from is the number that its bytes stand for.
pub mod Runs
pub mod Shared
pub mod Protocol
pub mod Atomic
pub mod Promise
pub mod Rounds
pub mod Committed
use cs_453_concurrent_algori.Common.{
  ℕ, zero, suc, ◌≡◌, Bool, true, false, ◌&&◌, ◌||◌, not, ◌==◌, if◌then◌else◌, ◌-◌, ◌%◌, Option,
  none, some,
}
use Prim.Native.Nat.{bit_and}
use cs_453_concurrent_algori.Word.{success_alloc, nomem_alloc}
use cs_453_concurrent_algori.Reference.{invalid_tx}

-- The functions that `TransactionalLibrary` binds, but for the destruction of the region. A read gives
-- whether the transaction can go on, and what it read; an allocation gives a status and an address.
pub record Library (S : Type 0) : Type 0 where
  pub lib_create : ℕ → ℕ → Option S
  pub lib_start : S → ℕ
  pub lib_begin : S → Bool → S × ℕ
  pub lib_end : S → ℕ → S × Bool
  pub lib_read : S → ℕ → ℕ → ℕ → S × Bool × ℕ
  pub lib_write : S → ℕ → ℕ → ℕ → ℕ → S × Bool
  pub lib_alloc : S → ℕ → ℕ → S × ℕ × ℕ
  pub lib_free : S → ℕ → ℕ → S × Bool

-- `assert_mode` of grading/common.hpp
abbrev pub assert_mode : Bool
assert_mode = false

-- The exceptions that these classes throw
pub data Exception : Type 0 where
  transaction_align : Exception
  transaction_read_only : Exception
  transaction_create : Exception
  transaction_begin : Exception
  transaction_alloc : Exception
  transaction_retry : Exception
  transaction_not_last_segment : Exception
  shared_align : Exception
  shared_double_alloc : Exception
  shared_double_free : Exception
  bounded_overrun : Exception

-- How a call ends: with a value, with an exception, in `std::terminate`, or not at all.
pub data Result (A : Type 0) : Type 0 where
  value : A → Result A
  thrown : Exception → Result A
  terminated : Result A
  endless : Result A

abbrev pub is_power_of_two : ℕ → Bool
is_power_of_two align = not (align == 0) && bit_and align (align - 1) == 0

pub record TransactionalMemory (S : Type 0) : Type 0 where
  pub shared : S
  pub start_addr : ℕ
  pub start_size : ℕ
  pub alignment : ℕ

-- What `bounded_run` makes of a function that is run in a thread of its own: an exception that leaves the
-- thread is not caught. Whether the function is in time is a parameter.
abbrev pub bounded_run : {A : Type 0} → Bool → Result A → Result A
bounded_run in_time (value a) = if in_time then value a else thrown bounded_overrun
bounded_run in_time (thrown e) = if in_time then terminated else thrown bounded_overrun
bounded_run in_time terminated = terminated
bounded_run in_time endless = thrown bounded_overrun

-- What a transaction's closure does, one operation of its transaction at a time: the private content of
-- what it reads and the addresses that it gets decide how it goes on.
pub data Prog (A : Type 0) : Type 0 where
  give : A → Prog A
  throw : Exception → Prog A
  diverge : Prog A
  reads : ℕ → ℕ → (ℕ → Prog A) → Prog A
  writes : ℕ → ℕ → ℕ → Prog A → Prog A
  allocs : ℕ → (ℕ → Prog A) → Prog A
  frees : ℕ → Prog A → Prog A

infixl 5 ◌>>=◌ ◌>>◌
abbrev pub ◌>>=◌ : {A B : Type 0} → Prog A → (A → Prog B) → Prog B
give a >>= f = f a
throw e >>= f = throw e
diverge >>= f = diverge
reads source size k >>= f = reads source size (λ v. k v >>= f)
writes content size target p >>= f = writes content size target (p >>= f)
allocs size k >>= f = allocs size (λ a. k a >>= f)
frees target p >>= f = frees target (p >>= f)

abbrev pub ◌>>◌ : {A B : Type 0} → Prog A → Prog B → Prog B
p >> q = p >>= λ _. q

pub data Mode : Type 0 where
  read_write : Mode
  read_only : Mode

abbrev pub is_read_only : Mode → Bool
is_read_only read_write = false
is_read_only read_only = true

pub record Transaction : Type 0 where
  pub tx : ℕ
  pub aborted : Bool
  pub is_ro : Bool

abbrev pub abort : Transaction → Transaction
abort t = record t { aborted = true }

-- The destructor's exception, which ends the process if one is on its way already.
abbrev pub not_ended : {A : Type 0} → Result A → Result A
not_ended (value a) = thrown transaction_retry
not_ended (thrown e) = terminated
not_ended terminated = terminated
not_ended endless = endless

-- The exception that the loop catches
abbrev pub is_retry : {A : Type 0} → Result A → Bool
is_retry (thrown transaction_retry) = true
is_retry _ = false

module _ {S : Type 0} (lib : Library S) where
  -- The constructor of `TransactionalMemory`
  unfoldable pub memory_of : Bool → ℕ → ℕ → Result (TransactionalMemory S)
  memory_of in_time align size =
      if assert_mode && (not (is_power_of_two align) || not (size % align == 0))
      then thrown transaction_align
      else bounded_run in_time (created (lib.lib_create size align))
    where
      created : Option S → Result (TransactionalMemory S)
      created none = thrown transaction_create
      created (some s) = value (record {
        shared = s;
        start_addr = lib.lib_start s;
        start_size = size;
        alignment = align;
      })

  -- The operations of `Transaction`. An operation after which the transaction cannot go on marks it as
  -- aborted and throws.
  abbrev pub transaction_read : S → Transaction → ℕ → ℕ → S × Transaction × Result ℕ
  transaction_read s t source size =
      let (s1, ok, content) = lib.lib_read s t.tx source size in
      if not ok then (s1, abort t, thrown transaction_retry) else (s1, t, value content)

  abbrev pub transaction_write : S → Transaction → ℕ → ℕ → ℕ → S × Transaction × Result (Unit {0})
  transaction_write s t content size target =
      let (s1, ok) = lib.lib_write s t.tx content size target in
      if assert_mode && t.is_ro
      then (s, t, thrown transaction_read_only)
      else if not ok
      then (s1, abort t, thrown transaction_retry)
      else (s1, t, value tt)

  abbrev pub transaction_alloc_op : S → Transaction → ℕ → S × Transaction × Result ℕ
  transaction_alloc_op s t size =
      let (s1, status, target) = lib.lib_alloc s t.tx size in
      if assert_mode && t.is_ro
      then (s, t, thrown transaction_read_only)
      else if status == success_alloc
      then (s1, t, value target)
      else if status == nomem_alloc
      then (s1, t, thrown transaction_alloc)
      else (s1, abort t, thrown transaction_retry)

  abbrev pub transaction_free : S → Transaction → ℕ → S × Transaction × Result (Unit {0})
  transaction_free s t target =
      let (s1, ok) = lib.lib_free s t.tx target in
      if assert_mode && t.is_ro
      then (s, t, thrown transaction_read_only)
      else if not ok
      then (s1, abort t, thrown transaction_retry)
      else (s1, t, value tt)

  -- A closure on a transaction
  unfoldable pub run : {A : Type 0} → S → Transaction → Prog A → S × Transaction × Result A
  run s t (give a) = (s, t, value a)
  run s t (throw e) = (s, t, thrown e)
  run s t diverge = (s, t, endless)
  run {A} s t (reads source size k) =
      let (s1, t1, r) = transaction_read s t source size in
      elim r as (λ _. S × Transaction × Result A) [
        | value v ↦ run s1 t1 (k v)
        | thrown e ↦ (s1, t1, thrown e)
        | terminated ↦ (s1, t1, terminated)
        | endless ↦ (s1, t1, endless)
      ]
  run {A} s t (writes content size target p) =
      let (s1, t1, r) = transaction_write s t content size target in
      elim r as (λ _. S × Transaction × Result A) [
        | value v ↦ run s1 t1 p
        | thrown e ↦ (s1, t1, thrown e)
        | terminated ↦ (s1, t1, terminated)
        | endless ↦ (s1, t1, endless)
      ]
  run {A} s t (allocs size k) =
      let (s1, t1, r) = transaction_alloc_op s t size in
      elim r as (λ _. S × Transaction × Result A) [
        | value v ↦ run s1 t1 (k v)
        | thrown e ↦ (s1, t1, thrown e)
        | terminated ↦ (s1, t1, terminated)
        | endless ↦ (s1, t1, endless)
      ]
  run {A} s t (frees target p) =
      let (s1, t1, r) = transaction_free s t target in
      elim r as (λ _. S × Transaction × Result A) [
        | value v ↦ run s1 t1 p
        | thrown e ↦ (s1, t1, thrown e)
        | terminated ↦ (s1, t1, terminated)
        | endless ↦ (s1, t1, endless)
      ]

  -- The destructor, where the closure has ended as given.
  abbrev pub destroyed : {A : Type 0} → S → Transaction → Result A → S × Result A
  destroyed s t r =
      let (s1, ok) = lib.lib_end s t.tx in
      if t.aborted then (s, r) else if not ok then (s1, not_ended r) else (s1, r)

  -- A closure that runs for ever, and a process that was terminated, reach no destructor.
  abbrev pub leaves : {A : Type 0} → S → Transaction → Result A → S × Result A
  leaves s t (value a) = destroyed s t (value a)
  leaves s t (thrown e) = destroyed s t (thrown e)
  leaves s t terminated = (s, terminated)
  leaves s t endless = (s, endless)

  -- One round of the loop of `transactional`, up to its `catch`. A constructor that throws makes no
  -- transaction, and no destructor runs.
  unfoldable pub attempt : {A : Type 0} → S → Mode → Prog A → S × Result A
  unfolding run
  attempt s mode p =
      let (s1, tx) = lib.lib_begin s (is_read_only mode) in
      let (s2, t, r) = run s1 (record { tx = tx; aborted = false; is_ro = is_read_only mode }) p in
      if tx == invalid_tx then (s1, thrown transaction_begin) else leaves s2 t r

  -- At most that many rounds of the loop
  unfoldable pub transactional : {A : Type 0} → ℕ → S → Mode → Prog A → S × Result A
  unfolding attempt
  transactional zero s mode p = (s, endless)
  transactional (suc rounds) s mode p =
      let (s1, r) = attempt s mode p in
      let rest = transactional rounds s1 mode p in if is_retry r then rest else (s1, r)
