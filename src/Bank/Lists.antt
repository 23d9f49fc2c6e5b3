-- ===== src/Bank/Lists.antt =====
-- The list of segments taken apart at one segment, whose links and balances change.
use cs_453_concurrent_algori.Common.{
  ℕ, zero, suc, ◌+◌, ◌≤◌, ◌<◌, ◌≡◌, ◌≢◌, ◌⊎◌, refl, sym, ap, subst, ◌∙◌, List, [], ◌∷◌, ◌++◌,
  update, arith, ℕ_discrete,
}
use cs_453_concurrent_algori.Transactional.Shared.{cell}
use cs_453_concurrent_algori.Transactional.Atomic.{zero_from}
use cs_453_concurrent_algori.Bank.{segment_size, count, next, parity, accounts}
use cs_453_concurrent_algori.Bank.Segments.{
  Listed, Apart, ApartFrom, Laid, Filled, sum_to, total_balance, total_count, OutsideAll, Untouched,
}

-- Two memories have the same bytes in each segment of a list.
abbrev pub Agree : ℕ → (ℕ → ℕ) → (ℕ → ℕ) → List ℕ → Type 0
Agree cap f g [] = Unit
Agree cap f g (x ∷ xs) = ((a : ℕ) → x ≤ a → a < x + segment_size cap → g a ≡ f a) × Agree cap f g xs

pub Agree-trans :
    (cap : ℕ) (f g h : ℕ → ℕ) (xs : List ℕ) → Agree cap f g xs → Agree cap g h xs → Agree cap f h xs
Agree-trans cap f g h [] a b = tt
Agree-trans cap f g h (x ∷ xs) (a, as') (b, bs) =
    ((λ k p q. b k p q ∙ a k p q), Agree-trans cap f g h xs as' bs)

pub Agree-update :
    (cap : ℕ) (f : ℕ → ℕ) (b v : ℕ) (xs : List ℕ)
    → OutsideAll cap b xs
    → Agree cap f (update f b v) xs
Agree-update cap f b v [] out = tt
Agree-update cap f b v (x ∷ xs) (out, outs) =
    ((λ a p q. ground arith), Agree-update cap f b v xs outs)

pub sum_to-agree :
    (f g : ℕ → ℕ) (base n : ℕ)
    → ((i : ℕ) → i < n → g (cell base i) ≡ f (cell base i))
    → sum_to g base n ≡ sum_to f base n
sum_to-agree f g base zero h = refl
sum_to-agree f g base (suc n) h =
    omega (arith, h n (omega arith), sum_to-agree f g base n (λ i p. h i (omega arith)))

pub agree-Untouched :
    (cap : ℕ) (f g : ℕ → ℕ) (x : ℕ)
    → ((a : ℕ) → x ≤ a → a < x + segment_size cap → g a ≡ f a)
    → f (count x) ≤ cap
    → Untouched f g x
agree-Untouched cap f g x h full =
    let c = h (count x) (omega arith) (omega arith) in
    let p = h (parity x) (omega arith) (omega arith) in
    let sums =
      sum_to-agree f g (accounts x) (f (count x))
        (λ i q. h (cell (accounts x) i) (omega arith) (omega arith)) in
    let number : sum_to g (accounts x) (g (count x)) ≡ sum_to g (accounts x) (f (count x)) =
      ap (sum_to g (accounts x)) c in
    record {
      counted = c;
      linked = h (next x) (omega arith) (omega arith);
      balance = omega (arith, p, number, sums);
    }

-- What agreeing memories have in common
pub record InCommon (cap : ℕ) (f g : ℕ → ℕ) (xs : List ℕ) : Type 0 where
  pub filled : Filled cap g xs
  pub balance : total_balance g xs ≡ total_balance f xs
  pub number : total_count g xs ≡ total_count f xs

pub Agree-InCommon :
    (cap : ℕ) (f g : ℕ → ℕ) (xs : List ℕ) → Agree cap f g xs → Filled cap f xs → InCommon cap f g xs
Agree-InCommon cap f g [] a full = record { filled = tt; balance = refl; number = refl }
Agree-InCommon cap f g (x ∷ xs) (a, rest) (p, q, full) =
    let here = agree-Untouched cap f g x a q in
    let there = Agree-InCommon cap f g xs rest full in
    record {
      filled = (rw here.counted p, rw here.counted q, there.filled);
      balance = omega (arith, here.balance, there.balance);
      number = omega (arith, here.counted, there.number);
    }

pub total_balance-append :
    (f : ℕ → ℕ) (xs ys : List ℕ)
    → total_balance f (xs ++ ys) ≡ total_balance f xs + total_balance f ys
total_balance-append f [] ys = omega arith
total_balance-append f (x ∷ xs) ys = omega (arith, total_balance-append f xs ys)

pub total_count-append :
    (f : ℕ → ℕ) (xs ys : List ℕ) → total_count f (xs ++ ys) ≡ total_count f xs + total_count f ys
total_count-append f [] ys = omega arith
total_count-append f (x ∷ xs) ys = omega (arith, total_count-append f xs ys)

pub Filled-parts :
    (cap : ℕ) (f : ℕ → ℕ) (xs ys : List ℕ)
    → Filled cap f (xs ++ ys)
    → Filled cap f xs × Filled cap f ys
Filled-parts cap f [] ys h = (tt, h)
Filled-parts cap f (x ∷ xs) ys (p, q, h) = let (a, b) = Filled-parts cap f xs ys h in ((p, q, a), b)

pub Filled-join :
    (cap : ℕ) (f : ℕ → ℕ) (xs ys : List ℕ)
    → Filled cap f xs
    → Filled cap f ys
    → Filled cap f (xs ++ ys)
Filled-join cap f [] ys a b = b
Filled-join cap f (x ∷ xs) ys (p, q, a) b = (p, q, Filled-join cap f xs ys a b)

-- The list up to a segment stays, and goes on as that segment's new link says.
pub relink :
    (cap : ℕ) (f g : ℕ → ℕ) (at : ℕ) (us : List ℕ) (p : ℕ) (rest new : List ℕ)
    → Agree cap f g us
    → Listed f at (us ++ p ∷ rest)
    → Listed g (g (next p)) new
    → Listed g at (us ++ p ∷ new)
relink cap f g at [] p rest new a (e, nz, l) h = (e, nz, h)
relink cap f g at (u ∷ us) p rest new (a, as') (e, nz, l) h = (
  e,
  nz,
  relink cap f g (g (next u)) us p rest new as'
      (subst (λ k. Listed f k (us ++ p ∷ rest)) (sym (a (next u) (omega arith) (omega arith))) l) h,
)

pub Listed-end :
    (f : ℕ → ℕ) (at : ℕ) (us : List ℕ) (p : ℕ) (rest : List ℕ)
    → Listed f at (us ++ p ∷ rest)
    → (p ≢ 0) × Listed f (f (next p)) rest
Listed-end f at [] p rest (e, nz, l) = (nz, l)
Listed-end f at (u ∷ us) p rest (e, nz, l) = Listed-end f (f (next u)) us p rest l

ApartFrom-member :
    (cap x : ℕ) (us : List ℕ) (p : ℕ) (rest : List ℕ)
    → ApartFrom cap x (us ++ p ∷ rest)
    → Apart cap x p
ApartFrom-member cap x [] p rest (d, ds) = d
ApartFrom-member cap x (u ∷ us) p rest (d, ds) = ApartFrom-member cap x us p rest ds

-- An address in a segment of a list is outside of those before it.
pub Laid-OutsideAll :
    (cap a : ℕ) (us : List ℕ) (p : ℕ) (rest : List ℕ)
    → Laid cap (us ++ p ∷ rest)
    → p ≤ a
    → a < p + segment_size cap
    → OutsideAll cap a us
Laid-OutsideAll cap a [] p rest laid h k = tt
Laid-OutsideAll cap a (u ∷ us) p rest (d, laid) h k =
    let apart = ApartFrom-member cap u us p rest d in
    (ground arith, Laid-OutsideAll cap a us p rest laid h k)

ApartFrom-front : (cap x : ℕ) (us ws : List ℕ) → ApartFrom cap x (us ++ ws) → ApartFrom cap x us
ApartFrom-front cap x [] ws d = tt
ApartFrom-front cap x (u ∷ us) ws (d, ds) = (d, ApartFrom-front cap x us ws ds)

pub Laid-front : (cap : ℕ) (us ws : List ℕ) → Laid cap (us ++ ws) → Laid cap us
Laid-front cap [] ws laid = tt
Laid-front cap (u ∷ us) ws (d, laid) = (ApartFrom-front cap u us ws d, Laid-front cap us ws laid)

ApartFrom-snoc :
    (cap x : ℕ) (us : List ℕ) (z : ℕ)
    → ApartFrom cap x us
    → Apart cap x z
    → ApartFrom cap x (us ++ z ∷ [])
ApartFrom-snoc cap x [] z d e = (e, tt)
ApartFrom-snoc cap x (u ∷ us) z (d, ds) e = (d, ApartFrom-snoc cap x us z ds e)

pub Laid-snoc :
    (cap : ℕ) (us : List ℕ) (z : ℕ) → Laid cap us → ApartFrom cap z us → Laid cap (us ++ z ∷ [])
Laid-snoc cap [] z laid d = (tt, tt)
Laid-snoc cap (u ∷ us) z (e, laid) (d, ds) =
    let away : Apart cap u z = ground arith in
    (ApartFrom-snoc cap u us z e away, Laid-snoc cap us z laid ds)

-- A new segment is zero, and the memory elsewhere as it was.
pub zero_from-inside :
    (f : ℕ → ℕ) (base n a : ℕ) → base ≤ a → a < base + n → zero_from f base n a ≡ 0
zero_from-inside f base zero a h k = absurd (omega arith)
zero_from-inside f base (suc n) a h k = elim (ℕ_discrete a (base + n)) [
  | yes e ↦ ground arith
  | no e ↦ let rest = zero_from-inside f base n a h (omega arith) in ground (arith, rest)
]

pub zero_from-outside :
    (f : ℕ → ℕ) (base n a : ℕ) → (a < base) ⊎ (base + n ≤ a) → zero_from f base n a ≡ f a
zero_from-outside f base zero a h = refl
zero_from-outside f base (suc n) a h = ground (arith, zero_from-outside f base n a)

pub zero_from-Agree :
    (cap : ℕ) (f : ℕ → ℕ) (base : ℕ) (xs : List ℕ)
    → ApartFrom cap base xs
    → Agree cap f (zero_from f base (segment_size cap)) xs
zero_from-Agree cap f base [] d = tt
zero_from-Agree cap f base (x ∷ xs) (d, ds) = (
  (λ a p q. zero_from-outside f base (segment_size cap) a (ground arith)),
  zero_from-Agree cap f base xs ds,
)
