-- ===== src/Bank/Segments.antt =====
-- The list of segments in memory, and the sum of its balances.
use cs_453_concurrent_algori.Common.{
  ℕ, zero, suc, ◌+◌, ◌*◌, ◌≤◌, ◌<◌, ◌≡◌, ◌≢◌, ◌⊎◌, inr, refl, List, [], ◌∷◌, update, arith,
  ℕ_discrete,
}
use cs_453_concurrent_algori.Transactional.Shared.{cell}
use cs_453_concurrent_algori.Bank.{segment_size, count, next, parity, accounts}

-- The segments from `at` on are those of the list.
abbrev pub Listed : (ℕ → ℕ) → ℕ → List ℕ → Type 0
Listed f at [] = at ≡ 0
Listed f at (x ∷ xs) = (at ≡ x) × (x ≢ 0) × Listed f (f (next x)) xs

-- Two segments with room for `cap` accounts do not meet.
abbrev pub Apart : ℕ → ℕ → ℕ → Type 0
Apart cap x y = (x + segment_size cap ≤ y) ⊎ (y + segment_size cap ≤ x)

abbrev pub ApartFrom : ℕ → ℕ → List ℕ → Type 0
ApartFrom cap x [] = Unit
ApartFrom cap x (y ∷ ys) = Apart cap x y × ApartFrom cap x ys

abbrev pub Laid : ℕ → List ℕ → Type 0
Laid cap [] = Unit
Laid cap (x ∷ xs) = ApartFrom cap x xs × Laid cap xs

-- Each segment has an account, and no more than it has room for.
abbrev pub Filled : ℕ → (ℕ → ℕ) → List ℕ → Type 0
Filled cap f [] = Unit
Filled cap f (x ∷ xs) = (0 < f (count x)) × (f (count x) ≤ cap) × Filled cap f xs

abbrev pub sum_to : (ℕ → ℕ) → ℕ → ℕ → ℕ
sum_to f base zero = 0
sum_to f base (suc n) = f (cell base n) + sum_to f base n

-- The balances of a segment with its parity, and of all; the number of accounts of all
abbrev pub segment_balance : (ℕ → ℕ) → ℕ → ℕ
segment_balance f x = f (parity x) + sum_to f (accounts x) (f (count x))

abbrev pub total_balance : (ℕ → ℕ) → List ℕ → ℕ
total_balance f [] = 0
total_balance f (x ∷ xs) = segment_balance f x + total_balance f xs

abbrev pub total_count : (ℕ → ℕ) → List ℕ → ℕ
total_count f [] = 0
total_count f (x ∷ xs) = f (count x) + total_count f xs

pub sum_to-outside :
    (f : ℕ → ℕ) (base a v n : ℕ)
    → (a < base) ⊎ (base + n * 8 ≤ a)
    → sum_to (update f a v) base n ≡ sum_to f base n
sum_to-outside f base a v zero h = refl
sum_to-outside f base a v (suc n) h = ground (arith, sum_to-outside f base a v n)

pub sum_to-update :
    (f : ℕ → ℕ) (base k v n : ℕ)
    → k < n
    → f (cell base k) + sum_to (update f (cell base k) v) base n ≡ v + sum_to f base n
sum_to-update f base k v zero h = absurd (omega arith)
sum_to-update f base k v (suc n) h = elim (ℕ_discrete k n) [
  | yes e ↦
      let rest = sum_to-outside f base (cell base k) v n (inr (omega arith)) in ground (arith, rest)
  | no e ↦ let rest = sum_to-update f base k v n (omega arith) in ground (arith, rest)
]

-- An address that is in no part of a segment
abbrev pub Outside : ℕ → ℕ → ℕ → Type 0
Outside cap a x = (a < x) ⊎ (x + segment_size cap ≤ a)

-- The parts of a segment that a write elsewhere leaves alone
pub record Untouched (f g : ℕ → ℕ) (x : ℕ) : Type 0 where
  pub counted : g (count x) ≡ f (count x)
  pub linked : g (next x) ≡ f (next x)
  pub balance : segment_balance g x ≡ segment_balance f x

pub Outside-Untouched :
    (cap : ℕ) (f : ℕ → ℕ) (a v x : ℕ)
    → f (count x) ≤ cap
    → Outside cap a x
    → Untouched f (update f a v) x
Outside-Untouched cap f a v x full out =
    let same : update f a v (count x) ≡ f (count x) = ground arith in
    let next_same : update f a v (next x) ≡ f (next x) = ground arith in
    let sums : sum_to (update f a v) (accounts x) (f (count x))
        ≡ sum_to f (accounts x) (f (count x)) =
      sum_to-outside f (accounts x) a v (f (count x)) (ground arith) in
    record { counted = same; linked = next_same; balance = ground (arith, sums) }

abbrev pub OutsideAll : ℕ → ℕ → List ℕ → Type 0
OutsideAll cap a [] = Unit
OutsideAll cap a (x ∷ xs) = Outside cap a x × OutsideAll cap a xs

-- What a write outside of all segments leaves alone
pub record Same (cap : ℕ) (f g : ℕ → ℕ) (at : ℕ) (xs : List ℕ) : Type 0 where
  pub listed : Listed f at xs → Listed g at xs
  pub filled : Filled cap f xs → Filled cap g xs
  pub balance : total_balance g xs ≡ total_balance f xs
  pub number : total_count g xs ≡ total_count f xs

pub outside-Same :
    (cap : ℕ) (f : ℕ → ℕ) (a v at : ℕ) (xs : List ℕ)
    → Filled cap f xs
    → OutsideAll cap a xs
    → Same cap f (update f a v) at xs
outside-Same cap f a v at [] full out = record {
  listed = λ l. l;
  filled = λ l. l;
  balance = refl;
  number = refl;
}
outside-Same cap f a v at (x ∷ xs) (some_left, full, rest) (out, outs) =
    let here = Outside-Untouched cap f a v x full out in
    let there = outside-Same cap f a v (f (next x)) xs rest outs in
    record {
      listed = λ (e, nz, l). (e, nz, rw here.linked (there.listed l));
      filled = λ (p, q, l). (rw here.counted p, rw here.counted q, there.filled l);
      balance = omega (arith, here.balance, there.balance);
      number = omega (arith, here.counted, there.number);
    }

-- An address in a segment is outside of those that are apart from it.
pub inside-OutsideAll :
    (cap x a : ℕ) (xs : List ℕ)
    → ApartFrom cap x xs
    → x ≤ a
    → a < x + segment_size cap
    → OutsideAll cap a xs
inside-OutsideAll cap x a [] d p q = tt
inside-OutsideAll cap x a (y ∷ ys) (d, ds) p q = (ground arith, inside-OutsideAll cap x a ys ds p q)
