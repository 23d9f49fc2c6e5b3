-- ===== src/Tests/Banking.antt =====
-- The theorems on the transactions of the bank, with two segments of up to two accounts.
use cs_453_concurrent_algori.Common.{
  ℕ, ◌≡◌, inl, inr, refl, update, arith, List, [], ◌∷◌, some, true,
}
use cs_453_concurrent_algori.Transactional.{value}
use cs_453_concurrent_algori.Transactional.Atomic.{Memory, Placement, exec}
use cs_453_concurrent_algori.Bank.{long_tx, alloc_tx}
use cs_453_concurrent_algori.Bank.Segments.{Listed, Laid, Filled}
use cs_453_concurrent_algori.Bank.Search.{nth_account, both}
use cs_453_concurrent_algori.Bank.Transfer.{paid}
use cs_453_concurrent_algori.Bank.Audit.{long_tx-audit}
use cs_453_concurrent_algori.Bank.Accounts.{Stands}
use cs_453_concurrent_algori.Bank.Ends.{LeavesList}
use cs_453_concurrent_algori.Bank.Allocation.{alloc_tx-Stands}

-- Where the next segment is put
abbrev fixed : Placement
fixed m size = some 3072

-- Segments at 1024, with two accounts, and at 2048, with one; a parity of 5
abbrev first_segment : ℕ → ℕ
first_segment = update (update (update (update (λ a. 0) 1024 2) 1032 2048) 1048 95) 1056 100

abbrev holdings : ℕ → ℕ
holdings = update (update (update first_segment 2048 1) 2064 5) 2072 100

abbrev bank : Memory
bank = record { content = holdings; first = record { base = 1024; size = 64 }; blocks = [] }

abbrev segments : List ℕ
segments = 1024 ∷ 2048 ∷ []

segments-Listed : Listed holdings 1024 segments
segments-Listed = (refl, omega arith, (refl, omega arith, refl))

segments-Laid : Laid 2 segments
segments-Laid = ((inl (omega arith), tt), (tt, tt))

segments-Filled : Filled 2 holdings segments
segments-Filled = (omega arith, omega arith, (omega arith, omega arith, tt))

-- One unit goes from the first account to the third.
moved :
    (paid holdings (both (nth_account holdings segments 0) (nth_account holdings segments 2)) 1048
      ≡ 94)
    × (paid holdings (both (nth_account holdings segments 0) (nth_account holdings segments 2)) 2072
        ≡ 101)
moved = (refl, refl)

long_tx-audit_example : exec fixed bank (long_tx 3 100 1024 0) ≡ (bank, value (true, 3))
long_tx-audit_example = long_tx-audit fixed bank 3 100 1024 0 segments segments-Listed (omega arith)

segments-Stands : Stands 2 holdings 1024 segments 3 300
segments-Stands = record {
  listed = segments-Listed;
  laid = segments-Laid;
  filled = segments-Filled;
  number = refl;
  balance = refl;
}

-- With the trigger at 2, the only account of the last segment goes, and the segment with it.
alloc_tx-Stands_example : LeavesList 2 1024 (exec fixed bank (alloc_tx 2 100 2 1024 2)) 2 200
alloc_tx-Stands_example =
    alloc_tx-Stands fixed bank 2 100 2 2 1024 segments 3 300 3072 (omega arith) (omega arith)
      segments-Stands (omega arith) (omega arith) refl (omega arith)
      (inr (omega arith), (inr (omega arith), tt))
