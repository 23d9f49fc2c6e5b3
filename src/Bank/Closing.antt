-- ===== src/Bank/Closing.antt =====
-- `alloc_tx` where the last segment loses its last account.
use cs_453_concurrent_algori.Common.{
  ℕ, ◌+◌, ◌-◌, ◌≤◌, ◌<◌, ◌≡◌, ◌⊎◌, inl, inr, refl, sym, ap, subst, ◌∙◌, List, [], ◌∷◌, ◌++◌, update,
  arith,
}
use cs_453_concurrent_algori.Transactional.Shared.{cell}
use cs_453_concurrent_algori.Bank.{wrap, minus, segment_size, count, next, parity, accounts}
use cs_453_concurrent_algori.Bank.Segments.{
  Listed, Laid, Filled, sum_to, sum_to-outside, total_balance, total_count,
}
use cs_453_concurrent_algori.Bank.Lists.{
  Agree-trans, Agree-update, total_balance-append, total_count-append, Filled-parts,
  Laid-OutsideAll, Laid-front,
}
use cs_453_concurrent_algori.Bank.Last.{last_of, shrunk, parity_left}
use cs_453_concurrent_algori.Bank.Accounts.{Stands, changed}
use cs_453_concurrent_algori.Bank.Grown.{snoc_two}

module _ (cap init : ℕ) (f : ℕ → ℕ) (at : ℕ) (ws : List ℕ) (p z : ℕ)
    (l : Listed f at (ws ++ p ∷ z ∷ [])) (laid : Laid cap (ws ++ p ∷ z ∷ []))
    (full : Filled cap f (ws ++ p ∷ z ∷ []))
    (small : total_count f (ws ++ p ∷ z ∷ []) + 1 < 0x10000000000000000) where
  abbrev n : ℕ
  n = total_count f (ws ++ p ∷ z ∷ [])

  abbrev b : ℕ
  b = total_balance f (ws ++ p ∷ z ∷ [])

  pub shrunk-Stands :
      minus (f (count z)) 1 ≡ 0
      → Stands cap (shrunk f init p z) at (ws ++ p ∷ []) (n - 1) (minus b init)
  shrunk-Stands empty =
      let (pos_p, cap_p, rest) = (Filled-parts cap f ws (p ∷ z ∷ []) full).1 in
      let (pos_z, cap_z, end) = rest in
      let counts = total_count-append f ws (p ∷ z ∷ []) in
      let sums = total_balance-append f ws (p ∷ z ∷ []) in
      let around = λ (a : ℕ) (h : p ≤ a) (k : a < p + segment_size cap).
        Laid-OutsideAll cap a ws p (z ∷ []) laid h k in
      let one : f (count z) ≡ 1 = omega (arith, counts) in
      let left = parity_left f init z in
      let f1 = update f (next p) 0 in
      let v = wrap (f1 (parity p) + left) in
      let g = shrunk f init p z in
      let a1 = Agree-update cap f (next p) 0 ws (around (next p) (omega arith) (omega arith)) in
      let a2 =
        Agree-update cap f1 (parity p) v ws (around (parity p) (omega arith) (omega arith)) in
      let c = f (count p) in
      let number : g (count p) ≡ c = ground arith in
      let link : g (next p) ≡ 0 = ground arith in
      let par : g (parity p) ≡ wrap (f (parity p) + left) = ground arith in
      let cells1 : sum_to g (accounts p) c ≡ sum_to f1 (accounts p) c =
        sum_to-outside f1 (accounts p) (parity p) v c (inl (omega arith)) in
      let cells2 : sum_to f1 (accounts p) c ≡ sum_to f (accounts p) c =
        sum_to-outside f (accounts p) (next p) 0 c (inl (omega arith)) in
      let all : sum_to g (accounts p) (g (count p)) ≡ sum_to f (accounts p) c =
        rw number (cells1 ∙ cells2) in
      let last_value : f (cell (accounts z) (minus (f (count z)) 1)) ≡ f (cell (accounts z) 0) =
        ap (λ k. f (cell (accounts z) k)) empty in
      let only : sum_to f (accounts z) (f (count z)) ≡ f (cell (accounts z) 0) =
        rw one (omega arith) in
      changed cap f g at ws p (z ∷ []) [] l full (Agree-trans cap f f1 g ws a1 a2) link
        (Laid-front cap (ws ++ p ∷ []) (z ∷ []) (subst (Laid cap) (sym (snoc_two ws p z)) laid))
        (omega (arith, number), omega (arith, number)) tt (n - 1) (minus b init)
        (omega (arith, number, counts)) (omega (arith, all, par, last_value, only, sums))

-- A list has a last entry, or is empty.
pub front_view : (us : List ℕ) → (us ≡ []) ⊎ ((ws : List ℕ) × (p : ℕ) × (us ≡ ws ++ p ∷ []))
front_view [] = inl refl
front_view (u ∷ us) = elim (front_view us) [
  | inl e ↦ inr ([], u, ap (λ ws. u ∷ ws) e)
  | inr (ws, p, e) ↦ inr (u ∷ ws, p, ap (λ vs. u ∷ vs) e)
]

pub last_of-snoc : (prev : ℕ) (ws : List ℕ) (p : ℕ) → last_of prev (ws ++ p ∷ []) ≡ p
last_of-snoc prev [] p = refl
last_of-snoc prev (w ∷ ws) p = last_of-snoc w ws p
