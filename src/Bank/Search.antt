-- ===== src/Bank/Search.antt =====
-- `short_tx`: which accounts it finds.
use cs_453_concurrent_algori.Common.{
  ℕ, zero, suc, ◌-◌, ◌≤◌, ◌≡◌, inl, inr, refl, sym, ap, subst, ◌∙◌, List, [], ◌∷◌, arith, Option,
  none, some, true, false, not, ◌&&◌, ◌==◌, ltb, Bool-cases, if◌then◌else◌,
}
use cs_453_concurrent_algori.Transactional.{Prog, give, value}
use cs_453_concurrent_algori.Transactional.Shared.{cell}
use cs_453_concurrent_algori.Transactional.Atomic.{Memory, Placement, exec}
use cs_453_concurrent_algori.Bank.{count, next, accounts, look, find_accounts}
use cs_453_concurrent_algori.Bank.Segments.{Listed}

-- The account with an index, over all segments in their order
abbrev pub nth_account : (ℕ → ℕ) → List ℕ → ℕ → Option ℕ
nth_account f [] i = none
nth_account f (x ∷ xs) i =
    if ltb i (f (count x)) then some (cell (accounts x) i) else nth_account f xs (i - f (count x))

abbrev pub length : List ℕ → ℕ
length [] = 0
length (x ∷ xs) = suc (length xs)

abbrev pub both : Option ℕ → Option ℕ → Option (ℕ × ℕ)
both none q = none
both (some p) none = none
both (some p) (some q) = some (p, q)

-- A pointer that is found already, or the account
abbrev sought : (ℕ → ℕ) → List ℕ → ℕ → ℕ → Option ℕ
sought f xs i ptr = if ptr == 0 then nth_account f xs i else some ptr

both-none : (p : Option ℕ) → both p none ≡ none
both-none none = refl
both-none (some p) = refl

-- One round of the search
find_found :
    (place : Placement) (m : Memory) (rounds si ri sp rp at : ℕ)
    → not ((look at (m.content (count at)) si sp).0 == 0)
        && not ((look at (m.content (count at)) ri rp).0 == 0)
      ≡ true
    → exec place m (find_accounts (suc rounds) si ri sp rp at) ≡ (
      m,
      value (
          some
            ((look at (m.content (count at)) si sp).0, (look at (m.content (count at)) ri rp).0)),
    )
unfolding find_accounts exec
find_found place m rounds si ri sp rp at h = ground arith

find_more :
    (place : Placement) (m : Memory) (rounds si ri sp rp at : ℕ)
    → not ((look at (m.content (count at)) si sp).0 == 0)
        && not ((look at (m.content (count at)) ri rp).0 == 0)
      ≡ false
    → exec place m (find_accounts (suc rounds) si ri sp rp at)
      ≡ exec place m (
          if m.content (next at) == 0
          then give none
          else find_accounts rounds
              (look at (m.content (count at)) si sp).1
              (look at (m.content (count at)) ri rp).1
              (look at (m.content (count at)) si sp).0
              (look at (m.content (count at)) ri rp).0
              (m.content (next at)))
unfolding find_accounts exec
find_more place m rounds si ri sp rp at h = ground arith

-- What is sought in a list is found in its first segment, or sought in the others.
sought-look :
    (f : ℕ → ℕ) (x : ℕ) (xs : List ℕ) (i ptr : ℕ)
    → sought f (x ∷ xs) i ptr
      ≡ sought f xs (look x (f (count x)) i ptr).1 (look x (f (count x)) i ptr).0
sought-look f x xs i ptr = ground arith

sought-some : (f : ℕ → ℕ) (xs : List ℕ) (i p : ℕ) → not (p == 0) ≡ true → sought f xs i p ≡ some p
sought-some f xs i p h = ground arith

both_found :
    (f : ℕ → ℕ) (xs : List ℕ) (i j p q : ℕ)
    → not (p == 0) && not (q == 0) ≡ true
    → both (sought f xs i p) (sought f xs j q) ≡ some (p, q)
both_found f xs i j p q h = ground arith

none_left :
    (f : ℕ → ℕ) (i j p q : ℕ)
    → not (p == 0) && not (q == 0) ≡ false
    → both (sought f [] i p) (sought f [] j q) ≡ none
none_left f i j p q h = ground arith

pub exec-give :
    {A : Type 0} (place : Placement) (m : Memory) (a : A) → exec place m (give a) ≡ (m, value a)
unfolding exec
exec-give place m a = refl

-- The rest of the search behind one round, at the end of the list or not
module _ (place : Placement) (m : Memory) (rounds si ri sp rp at : ℕ)
    (more : not (sp == 0) && not (rp == 0) ≡ false) where
  abbrev Finds : List ℕ → Prog (Option (ℕ × ℕ)) → Type 0
  Finds zs p =
      exec place m p ≡ (m, value (both (sought m.content zs si sp) (sought m.content zs ri rp)))

  after_round :
      (zs : List ℕ)
      → Listed m.content at zs
      → length zs ≤ rounds
      → ((y : ℕ) (ys : List ℕ)
          → Listed m.content at (y ∷ ys)
          → length (y ∷ ys) ≤ rounds
          → Finds (y ∷ ys) (find_accounts rounds si ri sp rp at))
      → Finds zs (if at == 0 then give none else find_accounts rounds si ri sp rp at)
  after_round [] k q rec =
      ground
        (arith, exec-give {A = Option (ℕ × ℕ)} place m none, none_left m.content si ri sp rp more)
  after_round (y ∷ ys) (k, nz, rest) q rec = ground (arith, rec y ys (k, nz, rest) q)

pub find-sought :
    (place : Placement) (m : Memory) (rounds si ri sp rp at x : ℕ) (xs : List ℕ)
    → Listed m.content at (x ∷ xs)
    → length (x ∷ xs) ≤ rounds
    → exec place m (find_accounts rounds si ri sp rp at)
      ≡ (m, value (both (sought m.content (x ∷ xs) si sp) (sought m.content (x ∷ xs) ri rp)))
find-sought place m zero si ri sp rp at x xs l h = absurd (omega arith)
find-sought place m (suc rounds) si ri sp rp at x xs (e, nz, l) h =
    let f = m.content in
    let s1 = look x (f (count x)) si sp in
    let r1 = look x (f (count x)) ri rp in
    let there : both (sought f (x ∷ xs) si sp) (sought f (x ∷ xs) ri rp)
        ≡ both (sought f xs s1.1 s1.0) (sought f xs r1.1 r1.0) =
      rw (sought-look f x xs si sp) (rw (sought-look f x xs ri rp) refl) in
    subst
      (λ a.
        exec place m (find_accounts (suc rounds) si ri sp rp a)
        ≡ (m, value (both (sought f (x ∷ xs) si sp) (sought f (x ∷ xs) ri rp))))
      (sym e)
      (rw there (elim (Bool-cases (not (s1.0 == 0) && not (r1.0 == 0))) [
        | inl b ↦
            find_found place m rounds si ri sp rp x b
            ∙ ap (λ o. (m, value o)) (sym (both_found f xs s1.1 r1.1 s1.0 r1.0 b))
        | inr b ↦
            find_more place m rounds si ri sp rp x b
            ∙ after_round place m rounds s1.1 r1.1 s1.0 r1.0 (f (next x)) b xs l (omega arith)
                (λ y ys k q. find-sought place m rounds s1.1 r1.1 s1.0 r1.0 (f (next x)) y ys k q)
      ]))
