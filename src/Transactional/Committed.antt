-- ===== src/Transactional/Committed.antt =====
-- `transactional` over a library that does what its interface says, with no other thread about.
use cs_453_concurrent_algori.Common.{ℕ, suc, ◌≡◌, ◌≢◌, ◌⊎◌, true, false, arith}
use cs_453_concurrent_algori.Transactional.{
  Library, Prog, Result, thrown, terminated, endless, Mode, attempt, transactional, is_retry,
  transaction_begin,
}
use cs_453_concurrent_algori.Transactional.Atomic.{Memory, Alone}
use cs_453_concurrent_algori.Transactional.Promise.{Lawful}

module _ {S : Type 0} (lib : Library S) (mode : Mode) (law : Lawful lib mode) where
  -- What a call of `transactional` is for: no transaction began, and nothing changed; or the closure ended in
  -- one of the ways in which it may end alone, and what it left is committed.
  abbrev pub Concludes : {A : Type 0} → Memory → Prog A → S × Result A → Type 0
  Concludes c p o =
      ((o.1 ≡ thrown transaction_begin) × law.Idle o.0 c)
      ⊎ ((m' : Memory) × Alone c p (m', o.1) × law.Idle o.0 m')

  -- The end of a round
  record Round {A : Type 0} (c : Memory) (p : Prog A) (o : S × Result A) : Type 0 where
    again : is_retry o.1 ≡ true → law.Idle o.0 c
    leaves_with : is_retry o.1 ≡ false → o.1 ≢ endless → o.1 ≢ terminated → Concludes c p o

  at_last :
      {A : Type 0} (rounds : ℕ) (s s1 : S) (p : Prog A) (r : Result A)
      → attempt lib s mode p ≡ (s1, r)
      → is_retry r ≡ false
      → transactional lib (suc rounds) s mode p ≡ (s1, r)
  unfolding transactional
  at_last rounds s s1 p r e h = ground arith

  -- Where a call did not stay in the loop, and the process was not ended
  Comes : {A : Type 0} → Memory → Prog A → S × Result A → Type 0
  Comes c p o = o.1 ≢ endless → o.1 ≢ terminated → Concludes c p o
