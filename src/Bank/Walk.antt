-- ===== src/Bank/Walk.antt =====
-- A write to an account, and the search for accounts in the list.
use cs_453_concurrent_algori.Common.{
  ℕ, ◌+◌, ◌<◌, ◌≡◌, ◌⊎◌, inl, inr, refl, sym, subst, ◌∙◌, List, [], ◌∷◌, update, arith, Option,
  none, some,
}
use cs_453_concurrent_algori.Transactional.{
  Prog, give, throw, diverge, reads, writes, allocs, frees, ◌>>=◌, value,
}
use cs_453_concurrent_algori.Transactional.Shared.{cell}
use cs_453_concurrent_algori.Transactional.Atomic.{
  Memory, Placement, exec, exec_allocs, exec_allocs_nomem, granted, without,
}
use cs_453_concurrent_algori.Bank.{count, next, parity, accounts}
use cs_453_concurrent_algori.Bank.Segments.{
  Listed, ApartFrom, Laid, Filled, sum_to, sum_to-update, total_balance, total_count, Outside,
  OutsideAll, Outside-Untouched, outside-Same, inside-OutsideAll,
}

-- The first account that a list has at an address
abbrev pub AccountOf : (ℕ → ℕ) → ℕ → ℕ → Type 0
AccountOf f x p = (k : ℕ) × (k < f (count x)) × (p ≡ cell (accounts x) k)

abbrev pub IsAccount : (ℕ → ℕ) → List ℕ → ℕ → Type 0
IsAccount f [] p = p < 0
IsAccount f (x ∷ xs) p = AccountOf f x p ⊎ IsAccount f xs p

-- What a write to an account changes: the sum of the balances, by the difference
pub record Credited (cap : ℕ) (f g : ℕ → ℕ) (at : ℕ) (xs : List ℕ) (old new : ℕ) : Type 0 where
  pub listed : Listed f at xs → Listed g at xs
  pub filled : Filled cap f xs → Filled cap g xs
  pub balance : old + total_balance g xs ≡ new + total_balance f xs
  pub number : total_count g xs ≡ total_count f xs
  pub stays : (q : ℕ) → IsAccount f xs q → IsAccount g xs q

Same-stays :
    (cap : ℕ) (f : ℕ → ℕ) (a v : ℕ) (xs : List ℕ)
    → Filled cap f xs
    → OutsideAll cap a xs
    → (q : ℕ) → IsAccount f xs q
    → IsAccount (update f a v) xs q
Same-stays cap f a v [] full out q h = h
Same-stays cap f a v (x ∷ xs) (p, full, rest) (out, outs) q (inl (k, lt, e)) =
    inl (k, rw (Outside-Untouched cap f a v x full out).counted lt, e)
Same-stays cap f a v (x ∷ xs) (p, full, rest) (out, outs) q (inr h) =
    inr (Same-stays cap f a v xs rest outs q h)

account-Outside :
    (cap : ℕ) (f : ℕ → ℕ) (x : ℕ) (xs : List ℕ) (p : ℕ)
    → ApartFrom cap x xs
    → Filled cap f xs
    → IsAccount f xs p
    → Outside cap p x
account-Outside cap f x [] p d full h = absurd (omega arith)
account-Outside cap f x (y ∷ ys) p (d, ds) (a, b, full) (inl (k, lt, e)) = ground arith
account-Outside cap f x (y ∷ ys) p (d, ds) (a, b, full) (inr h) =
    account-Outside cap f x ys p ds full h

stays_cons :
    (f g : ℕ → ℕ) (x : ℕ) (xs : List ℕ)
    → g (count x) ≡ f (count x)
    → ((q : ℕ) → IsAccount f xs q → IsAccount g xs q)
    → (q : ℕ) → IsAccount f (x ∷ xs) q
    → IsAccount g (x ∷ xs) q
stays_cons f g x xs same rest q (inl (i, l, w)) = inl (i, rw same l, w)
stays_cons f g x xs same rest q (inr w) = inr (rest q w)

pub account-Credited :
    (cap : ℕ) (f : ℕ → ℕ) (at : ℕ) (xs : List ℕ) (p v : ℕ)
    → Laid cap xs
    → Filled cap f xs
    → IsAccount f xs p
    → Credited cap f (update f p v) at xs (f p) v
account-Credited cap f at [] p v laid full h = absurd (omega arith)
account-Credited cap f at (x ∷ xs) p v (d, laid) (some_left, full, rest) (inl (k, lt, e)) =
    let outs = inside-OutsideAll cap x p xs d (omega arith) (omega arith) in
    let there = outside-Same cap f p v (f (next x)) xs rest outs in
    let same : update f p v (count x) ≡ f (count x) = ground arith in
    let next_same : update f p v (next x) ≡ f (next x) = ground arith in
    let parity_same : update f p v (parity x) ≡ f (parity x) = ground arith in
    let moved : f p + sum_to (update f p v) (accounts x) (f (count x))
        ≡ v + sum_to f (accounts x) (f (count x)) =
      subst
        (λ a.
          f a + sum_to (update f a v) (accounts x) (f (count x))
          ≡ v + sum_to f (accounts x) (f (count x)))
        (sym e) (sum_to-update f (accounts x) k v (f (count x)) lt) in
    record {
      listed = λ (a, nz, l). (a, nz, rw next_same (there.listed l));
      filled = λ (a, b, l). (rw same a, rw same b, there.filled l);
      balance = ground (arith, there.balance, moved);
      number = omega (arith, same, there.number);
      stays = stays_cons f (update f p v) x xs same (Same-stays cap f p v xs rest outs);
    }
account-Credited cap f at (x ∷ xs) p v (d, laid) (some_left, full, rest) (inr h) =
    let out = account-Outside cap f x xs p d rest h in
    let here = Outside-Untouched cap f p v x full out in
    let there = account-Credited cap f (f (next x)) xs p v laid rest h in
    record {
      listed = λ (a, nz, l). (a, nz, rw here.linked (there.listed l));
      filled = λ (a, b, l). (rw here.counted a, rw here.counted b, there.filled l);
      balance = omega (arith, here.balance, there.balance);
      number = omega (arith, here.counted, there.number);
      stays = stays_cons f (update f p v) x xs here.counted there.stays;
    }

-- A program behind another one that gave a value
pub exec-bind :
    {A B : Type 0} (place : Placement) (m m1 : Memory) (p : Prog A) (k : A → Prog B) (a : A)
    → exec place m p ≡ (m1, value a)
    → exec place m (p >>= k) ≡ exec place m1 (k a)
unfolding exec
exec-bind place m m1 (give b) k a e = ground arith
exec-bind place m m1 (throw x) k a e = ground arith
exec-bind place m m1 diverge k a e = ground arith
exec-bind place m m1 (reads source size q) k a e = exec-bind place m m1 (q (m.content source)) k a e
exec-bind place m m1 (writes content size target p) k a e =
    exec-bind place (record m { content = update m.content target content }) m1 p k a e
exec-bind {A} {B} place m m1 (allocs size q) k a e =
    by_place (place m size) refl (λ x f. exec-bind place (granted m x size) m1 (q x) k a f)
  where
    by_place :
        (o : Option ℕ)
        → place m size ≡ o
        → ((x : ℕ)
            → exec place (granted m x size) (q x) ≡ (m1, value a)
            → exec place (granted m x size) (q x >>= k) ≡ exec place m1 (k a))
        → exec place m (allocs size (λ x. q x >>= k)) ≡ exec place m1 (k a)
    by_place none h rec = ground (arith, exec_allocs_nomem place size q m h)
    by_place (some x) h rec =
        exec_allocs place size (λ x. q x >>= k) m x h
        ∙ rec x (sym (exec_allocs place size q m x h) ∙ e)
exec-bind place m m1 (frees target p) k a e =
    exec-bind place (record m { blocks = without target m.blocks }) m1 p k a e
