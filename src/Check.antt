-- ===== src/Check.antt =====
-- grading/workload.hpp, `check` of WorkloadBank: the threads count a shared counter down to zero, with a
-- barrier before and behind the loop. A transaction is one step on the committed counter, as
-- Transactional/Committed has it of `transactional`; of the barrier the model has what Barrier/Safe shows, that a
-- thread is behind its call only if every thread has begun it.
pub mod Countdown
pub mod Moves
pub mod Passed
use cs_453_concurrent_algori.Common.{
  ℕ, suc, ◌*◌, ◌≤◌, ◌<◌, ◌≡◌, Bool, true, false, ◌==◌, ltb, if◌then◌else◌, update,
}
use cs_453_concurrent_algori.Bank.{wrap, minus}

abbrev pub nb_tx_per_wrk : ℕ
nb_tx_per_wrk = 100

-- Where a worker stands: in the first call of `sync`, before the two transactions that set the counter up,
-- in the second call; in round `i` of the loop before each of its transactions; in the last call, before
-- the last transaction, or behind a return with an error or without.
pub data Checker : Type 0 where
  first_sync : Checker
  sets : Checker
  tests_set : Checker
  second_sync : Checker
  fetches : ℕ → Checker
  decreases : ℕ → ℕ → Checker
  last_sync : Checker
  tests_zero : Checker
  violated : Checker
  correct : Checker

pub record Checking : Type 0 where
  pub counter : ℕ
  pub checker : ℕ → Checker

-- The calls of `sync` that a worker has begun. One that found a violation begins the rest as well.
abbrev pub syncs : Checker → ℕ
syncs first_sync = 1
syncs sets = 1
syncs tests_set = 1
syncs second_sync = 2
syncs (fetches i) = 2
syncs (decreases i last) = 2
syncs last_sync = 3
syncs tests_zero = 3
syncs violated = 3
syncs correct = 3

-- The head of the loop
abbrev pub next_round : ℕ → Checker
next_round i = if ltb i nb_tx_per_wrk then fetches i else last_sync

-- The transaction of a round: whether the counter did not grow, and the counter behind it
abbrev pub decrease : ℕ → ℕ → Bool × ℕ
decrease last value = if ltb last value then (false, value) else (true, minus value 1)

module _ (n : ℕ) where
  abbrev pub AllBegun : Checking → ℕ → Type 0
  AllBegun s k = (j : ℕ) → j < n → k ≤ syncs (s.checker j)

  -- `check` of worker `uid`
  pub data CheckStep (s : Checking) (uid : ℕ) : Checking → Type 0 where
    behind_first :
        s.checker uid ≡ first_sync
        → AllBegun s 1
        → CheckStep s uid
            (record s { checker = update s.checker uid (if uid == 0 then sets else second_sync) })
    sets_counter :
        s.checker uid ≡ sets
        → CheckStep s uid (record {
          counter = wrap (nb_tx_per_wrk * n);
          checker = update s.checker uid tests_set;
        })
    reads_counter :
        s.checker uid ≡ tests_set
        → CheckStep s uid (record s {
          checker =
              update s.checker uid
                (if s.counter == wrap (nb_tx_per_wrk * n) then second_sync else violated);
        })
    behind_second :
        s.checker uid ≡ second_sync
        → AllBegun s 2
        → CheckStep s uid (record s { checker = update s.checker uid (next_round 0) })
    fetches_last :
        (i : ℕ)
        → s.checker uid ≡ fetches i
        → CheckStep s uid (record s { checker = update s.checker uid (decreases i s.counter) })
    counts_down :
        (i last : ℕ)
        → s.checker uid ≡ decreases i last
        → CheckStep s uid (record {
          counter = (decrease last s.counter).1;
          checker =
              update s.checker uid
                (if (decrease last s.counter).0 then next_round (suc i) else violated);
        })
    behind_last :
        s.checker uid ≡ last_sync
        → AllBegun s 3
        → CheckStep s uid
            (record s { checker = update s.checker uid (if uid == 0 then tests_zero else correct) })
    tests_counter :
        s.checker uid ≡ tests_zero
        → CheckStep s uid (record s {
          checker = update s.checker uid (if s.counter == 0 then correct else violated);
        })

  -- The counter is whatever the memory has.
  pub data Checks (before : ℕ) : Checking → Type 0 where
    begins : Checks before (record { counter = before; checker = λ i. first_sync })
    steps :
        {s s' : Checking} (uid : ℕ)
        → Checks before s
        → uid < n
        → CheckStep s uid s'
        → Checks before s'
