-- ===== src/Bank/Transfer.antt =====
-- `short_tx`: what it transfers, and that it keeps the sum.
use cs_453_concurrent_algori.Common.{
  ℕ, ◌+◌, ◌≡◌, List, update, Option, none, some, Bool, true, false, not, ◌&&◌, ltb, if◌then◌else◌,
}
use cs_453_concurrent_algori.Bank.{wrap, minus, is_negative}
use cs_453_concurrent_algori.Bank.Segments.{Listed, Filled, total_balance, total_count}

-- The memory behind a transfer between two accounts: one unit is moved if there is one to move.
abbrev pub moved_unit : (ℕ → ℕ) → ℕ → ℕ → ℕ → ℕ
moved_unit f p q =
    if ltb 0 (f p) && not (is_negative (f p))
    then update (update f p (minus (f p) 1)) q (wrap (update f p (minus (f p) 1) q + 1))
    else f

abbrev pub paid : (ℕ → ℕ) → Option (ℕ × ℕ) → ℕ → ℕ
paid f none = f
paid f (some (p, q)) = moved_unit f p q

abbrev pub is_some : Option (ℕ × ℕ) → Bool
is_some none = false
is_some (some r) = true

-- The list of segments behind a transaction that moves money between them only
pub record Conserved (cap : ℕ) (f g : ℕ → ℕ) (at : ℕ) (xs : List ℕ) : Type 0 where
  pub listed : Listed g at xs
  pub filled : Filled cap g xs
  pub balance : wrap (total_balance g xs) ≡ wrap (total_balance f xs)
  pub number : total_count g xs ≡ total_count f xs
