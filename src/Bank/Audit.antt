-- ===== src/Bank/Audit.antt =====
-- `long_tx`: what the control transaction finds.
use cs_453_concurrent_algori.Common.{
  ℕ, zero, suc, ◌+◌, ◌*◌, ◌<◌, ◌≡◌, ◌≢◌, refl, sym, ap, subst, ◌∙◌, List, [], ◌∷◌, arith, Option,
  none, some, Bool, true, false, ◌==◌, Bool-cases, inl, inr, if◌then◌else◌,
}
use cs_453_concurrent_algori.Transactional.{Prog, give, ◌>>=◌, value}
use cs_453_concurrent_algori.Transactional.Shared.{cell, shared_read}
use cs_453_concurrent_algori.Transactional.Atomic.{Memory, Placement, exec}
use cs_453_concurrent_algori.Bank.{
  wrap, is_negative, count, next, parity, accounts, sum_accounts, sum_segments, audit, long_tx,
}
use cs_453_concurrent_algori.Bank.Segments.{Listed, sum_to, total_balance, total_count}
use cs_453_concurrent_algori.Bank.Walk.{exec-bind}
use cs_453_concurrent_algori.Bank.Search.{length, exec-give}

-- Whether one of `n` accounts from index `i` on has a negative balance, and the sum of them
abbrev pub negative_from : (ℕ → ℕ) → ℕ → ℕ → ℕ → Bool
negative_from f base i zero = false
negative_from f base i (suc n) =
    if is_negative (f (cell base i)) then true else negative_from f base (suc i) n

abbrev pub sum_from : (ℕ → ℕ) → ℕ → ℕ → ℕ → ℕ
sum_from f base i zero = 0
sum_from f base i (suc n) = f (cell base i) + sum_from f base (suc i) n

sum_from-suc :
    (f : ℕ → ℕ) (base i n : ℕ)
    → sum_from f base i (suc n) ≡ sum_from f base i n + f (cell base (i + n))
sum_from-suc f base i zero = ground arith
sum_from-suc f base i (suc n) =
    let e : suc i + n ≡ i + suc n = omega arith in
    let h : f (cell base (suc i + n)) ≡ f (cell base (i + suc n)) = ap (λ k. f (cell base k)) e in
    omega (arith, sum_from-suc f base (suc i) n, h)

sum_from-all : (f : ℕ → ℕ) (base n : ℕ) → sum_from f base 0 n ≡ sum_to f base n
sum_from-all f base zero = refl
sum_from-all f base (suc n) =
    let place : 0 + n ≡ n = omega arith in
    let step : sum_from f base 0 (suc n) ≡ sum_from f base 0 n + f (cell base n) =
      sum_from-suc f base 0 n ∙ ap (λ k. sum_from f base 0 n + f (cell base k)) place in
    step ∙ (rw (sum_from-all f base n) (omega arith))

-- Whether some account of the list has a negative balance
abbrev pub in_debt : (ℕ → ℕ) → List ℕ → Bool
in_debt f [] = false
in_debt f (x ∷ xs) = if negative_from f (accounts x) 0 (f (count x)) then true else in_debt f xs

exec-sum_accounts :
    (place : Placement) (m : Memory) (n i base sum : ℕ)
    → sum ≡ wrap sum
    → exec place m (sum_accounts n i base sum) ≡ (
      m,
      value (
          if negative_from m.content base i n
          then none
          else some (wrap (sum + sum_from m.content base i n))),
    )
unfolding exec sum_accounts
exec-sum_accounts place m zero i base sum h = ground arith
exec-sum_accounts place m (suc n) i base sum h =
    let rest =
      exec-sum_accounts place m n (suc i) base (wrap (sum + m.content (cell base i)))
        (omega arith) in
    ground (arith, rest)

-- The answer of the loops over segments
abbrev totals : (ℕ → ℕ) → List ℕ → ℕ → ℕ → Option (ℕ × ℕ)
totals f xs total sum =
    if in_debt f xs
    then none
    else some (wrap (total + total_count f xs), wrap (sum + total_balance f xs))

totals-cons :
    (f : ℕ → ℕ) (x : ℕ) (xs : List ℕ) (total sum : ℕ)
    → negative_from f (accounts x) 0 (f (count x)) ≡ false
    → totals f xs
        (wrap (total + f (count x)))
        (wrap (wrap (sum + f (parity x)) + sum_from f (accounts x) 0 (f (count x))))
      ≡ totals f (x ∷ xs) total sum
totals-cons f x xs total sum h =
    let all = sum_from-all f (accounts x) (f (count x)) in
    let a : wrap (wrap (total + f (count x)) + total_count f xs)
        ≡ wrap (total + total_count f (x ∷ xs)) =
      omega arith in
    let b : wrap (
          wrap (wrap (sum + f (parity x)) + sum_from f (accounts x) 0 (f (count x)))
          + total_balance f xs)
        ≡ wrap (sum + total_balance f (x ∷ xs)) =
      omega (arith, all) in
    rw a (rw b (rw h refl))

-- The rest of a round behind the accounts of the segment at `at`, which are `number`
abbrev behind_accounts : ℕ → ℕ → ℕ → ℕ → Option ℕ → Prog (Option (ℕ × ℕ))
behind_accounts rounds at total number none = give none
behind_accounts rounds at total number (some sum1) = shared_read (next at) >>= λ following.
    sum_segments rounds following (wrap (total + number)) sum1

sum_segments-round :
    (place : Placement) (m : Memory) (rounds at total sum : ℕ)
    → at ≢ 0
    → exec place m (sum_segments (suc rounds) at total sum)
      ≡ exec place m (
          sum_accounts (m.content (count at)) 0 (accounts at) (wrap (sum + m.content (parity at)))
          >>= behind_accounts rounds at total (m.content (count at)))
unfolding exec sum_segments
sum_segments-round place m rounds at total sum h = rw same (ground arith)
  where
    same :
        ◌≡◌ {A = Option ℕ → Prog (Option (ℕ × ℕ))}
          (λ found. elim found as (λ _. Prog (Option (ℕ × ℕ))) [
            | none ↦ give none
            | some sum1 ↦ shared_read (next at) >>= λ following.
                sum_segments rounds following (wrap (total + m.content (count at))) sum1
          ])
          (behind_accounts rounds at total (m.content (count at)))
    same = refl

exec-behind_none :
    (place : Placement) (m : Memory) (rounds at total number : ℕ)
    → exec place m (behind_accounts rounds at total number none) ≡ (m, value none)
unfolding exec
exec-behind_none place m rounds at total number = refl

exec-behind_some :
    (place : Placement) (m : Memory) (rounds at total number sum : ℕ)
    → exec place m (behind_accounts rounds at total number (some sum))
      ≡ exec place m (sum_segments rounds (m.content (next at)) (wrap (total + number)) sum)
unfolding exec
exec-behind_some place m rounds at total number sum = refl

sum_segments-end :
    (place : Placement) (m : Memory) (rounds at total sum : ℕ)
    → at ≡ 0
    → exec place m (sum_segments (suc rounds) at total sum) ≡ (m, value (some (total, sum)))
unfolding exec sum_segments
sum_segments-end place m rounds at total sum h = ground arith

exec-sum_segments :
    (place : Placement) (m : Memory) (rounds at total sum : ℕ) (xs : List ℕ)
    → Listed m.content at xs
    → length xs < rounds
    → total ≡ wrap total
    → sum ≡ wrap sum
    → exec place m (sum_segments rounds at total sum) ≡ (m, value (totals m.content xs total sum))
exec-sum_segments place m zero at total sum xs l h t s = absurd (omega arith)
exec-sum_segments place m (suc rounds) at total sum [] l h t s =
    sum_segments-end place m rounds at total sum l ∙ ground arith
exec-sum_segments place m (suc rounds) at total sum (x ∷ xs) (e, nz, l) h t s =
    let f = m.content in
    let sum0 = wrap (sum + f (parity x)) in
    let sum1 = wrap (sum0 + sum_from f (accounts x) 0 (f (count x))) in
    let head = exec-sum_accounts place m (f (count x)) 0 (accounts x) sum0 (omega arith) in
    let all = sum_from-all f (accounts x) (f (count x)) in
    let tail = behind_accounts rounds x total (f (count x)) in
    let enter = sum_segments-round place m rounds x total sum nz in
    let rest =
      exec-sum_segments place m rounds (f (next x)) (wrap (total + f (count x))) sum1 xs l
        (omega arith) (omega arith) (omega arith) in
    let goal = totals f (x ∷ xs) total sum in
    subst (λ a. exec place m (sum_segments (suc rounds) a total sum) ≡ (m, value goal)) (sym e)
      (enter ∙ elim (Bool-cases (negative_from f (accounts x) 0 (f (count x)))) [
        | inl n ↦
            exec-bind place m m (sum_accounts (f (count x)) 0 (accounts x) sum0) tail none
              (head ∙ rw n refl)
            ∙ exec-behind_none place m rounds x total (f (count x))
            ∙ rw n refl
        | inr n ↦
            exec-bind place m m (sum_accounts (f (count x)) 0 (accounts x) sum0) tail (some sum1)
              (head ∙ rw n refl)
            ∙ exec-behind_some place m rounds x total (f (count x)) sum1
            ∙ rest
            ∙ ap (λ o. (m, value o)) (totals-cons f x xs total sum n)
      ])

-- On a well-formed list of segments, with one round more than there are segments, `long_tx` returns and
-- writes nothing. If an account has a negative balance it answers false, and leaves the number of
-- accounts as it was; else it answers whether the sum of all balances and parities is the initial balance
-- times the number of accounts, both modulo 2 ^ 64, and gives that number.
pub long_tx-audit :
    (place : Placement) (m : Memory) (rounds init_balance start nbaccounts : ℕ) (xs : List ℕ)
    → Listed m.content start xs
    → length xs < rounds
    → exec place m (long_tx rounds init_balance start nbaccounts) ≡ (
      m,
      value (
          if in_debt m.content xs then (false, nbaccounts) else (
            wrap (total_balance m.content xs)
                == wrap (init_balance * wrap (total_count m.content xs)),
            wrap (total_count m.content xs),
          )),
    )
unfolding long_tx
long_tx-audit place m rounds init start nb xs l h =
    let walk = exec-sum_segments place m rounds start 0 0 xs l h (omega arith) (omega arith) in
    exec-bind place m m (sum_segments rounds start 0 0) (λ r. give (audit init nb r))
      (totals m.content xs 0 0) walk
    ∙ exec-give place m (audit init nb (totals m.content xs 0 0))
    ∙ ap (λ o. (m, value o)) same
  where
    same : audit init nb (totals m.content xs 0 0) ≡ (
        if in_debt m.content xs then (false, nb) else (
          wrap (total_balance m.content xs) == wrap (init * wrap (total_count m.content xs)),
          wrap (total_count m.content xs),
        ))
    same = ground arith
