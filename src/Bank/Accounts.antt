-- ===== src/Bank/Accounts.antt =====
-- `alloc_tx`: an account comes or goes, and the balances follow.
use cs_453_concurrent_algori.Common.{
  ℕ, suc, ◌+◌, ◌-◌, ◌≤◌, ◌<◌, ◌≡◌, inl, inr, refl, sym, subst, ◌∙◌, List, [], ◌∷◌, ◌++◌, update,
  arith,
}
use cs_453_concurrent_algori.Transactional.Shared.{cell}
use cs_453_concurrent_algori.Bank.{wrap, minus, segment_size, count, next, parity, accounts}
use cs_453_concurrent_algori.Bank.Segments.{
  Listed, Laid, Filled, sum_to, sum_to-outside, segment_balance, total_balance, total_count,
  OutsideAll,
}
use cs_453_concurrent_algori.Bank.Lists.{
  Agree, Agree-trans, Agree-update, Agree-InCommon, total_balance-append, total_count-append,
  Filled-parts, Filled-join, relink, Listed-end, Laid-OutsideAll,
}
use cs_453_concurrent_algori.Bank.Last.{added, removed, parity_left}

-- A well-formed list of segments with `n` accounts and the balances `b`, which counts modulo 2 ^ 64
pub record Stands (cap : ℕ) (f : ℕ → ℕ) (at : ℕ) (xs : List ℕ) (n b : ℕ) : Type 0 where
  pub listed : Listed f at xs
  pub laid : Laid cap xs
  pub filled : Filled cap f xs
  pub number : total_count f xs ≡ n
  pub balance : wrap (total_balance f xs) ≡ wrap b

-- A change in the segment at `p`, behind which the list goes on with `new`
module _ (cap : ℕ) (f g : ℕ → ℕ) (at : ℕ) (us : List ℕ) (p : ℕ) (rest new : List ℕ)
    (l : Listed f at (us ++ p ∷ rest)) (full : Filled cap f (us ++ p ∷ rest))
    (same : Agree cap f g us) (links : Listed g (g (next p)) new) (laid : Laid cap (us ++ p ∷ new))
    (here : (0 < g (count p)) × (g (count p) ≤ cap)) (there : Filled cap g new) where
  pub changed :
      (n b : ℕ)
      → total_count f us + g (count p) + total_count g new ≡ n
      → wrap (total_balance f us + segment_balance g p + total_balance g new) ≡ wrap b
      → Stands cap g at (us ++ p ∷ new) n b
  changed n b hn hb =
      let common = Agree-InCommon cap f g us same (Filled-parts cap f us (p ∷ rest) full).0 in
      let counts = total_count-append g us (p ∷ new) in
      let sums = total_balance-append g us (p ∷ new) in
      record {
        listed = relink cap f g at us p rest new same l links;
        laid = laid;
        filled = Filled-join cap g us (p ∷ new) common.filled (here.0, here.1, there);
        number = omega (arith, common.number, counts, hn);
        balance = omega (arith, common.balance, sums, hb);
      }

module _ (cap init : ℕ) (f : ℕ → ℕ) (at : ℕ) (us : List ℕ) (z : ℕ) (l : Listed f at (us ++ z ∷ []))
    (laid : Laid cap (us ++ z ∷ [])) (full : Filled cap f (us ++ z ∷ []))
    (small : total_count f (us ++ z ∷ []) + 1 < 0x10000000000000000) where
  abbrev pub n : ℕ
  n = total_count f (us ++ z ∷ [])

  abbrev pub b : ℕ
  b = total_balance f (us ++ z ∷ [])

  pub last_full : (0 < f (count z)) × (f (count z) ≤ cap)
  last_full = let (p, q, r) = (Filled-parts cap f us (z ∷ []) full).1 in (p, q)

  pub last_link : f (next z) ≡ 0
  last_link = (Listed-end f at us z [] l).1

  pub counted : n ≡ total_count f us + f (count z)
  counted = omega (arith, total_count-append f us (z ∷ []))

  pub summed : b ≡ total_balance f us + segment_balance f z
  summed = omega (arith, total_balance-append f us (z ∷ []))

  pub around : (a : ℕ) → z ≤ a → a < z + segment_size cap → OutsideAll cap a us
  around a h k = Laid-OutsideAll cap a us z [] laid h k

  pub added-Stands :
      f (count z) < cap → Stands cap (added f init z) at (us ++ z ∷ []) (n + 1) (b + init)
  added-Stands room =
      let c = f (count z) in
      let f1 = update f (cell (accounts z) c) init in
      let g = added f init z in
      let a1 =
        Agree-update cap f (cell (accounts z) c) init us
          (around (cell (accounts z) c) (omega arith) (omega arith)) in
      let a2 =
        Agree-update cap f1 (count z) (wrap (c + 1)) us
          (around (count z) (omega arith) (omega arith)) in
      let bound : c < 0x10000000000000000 - 1 = omega (arith, counted) in
      let number : g (count z) ≡ suc c = ground arith in
      let cells1 : sum_to g (accounts z) c ≡ sum_to f1 (accounts z) c =
        sum_to-outside f1 (accounts z) (count z) (wrap (c + 1)) c (inl (omega arith)) in
      let cells2 : sum_to f1 (accounts z) c ≡ sum_to f (accounts z) c =
        sum_to-outside f (accounts z) (cell (accounts z) c) init c (inr (omega arith)) in
      let new_cell : g (cell (accounts z) c) ≡ init = ground arith in
      let par : g (parity z) ≡ f (parity z) = ground arith in
      let link : g (next z) ≡ 0 = ground (arith, last_link) in
      let all : sum_to g (accounts z) (g (count z)) ≡ init + sum_to f (accounts z) c =
        rw number (omega (arith, new_cell, cells1, cells2)) in
      changed cap f g at us z [] [] l full (Agree-trans cap f f1 g us a1 a2) link laid
        (omega (arith, number), omega (arith, number)) tt (n + 1) (b + init)
        (omega (arith, number, counted)) (omega (arith, all, par, summed))

  pub removed-Stands :
      0 < minus (f (count z)) 1
      → Stands cap (removed f init z) at (us ++ z ∷ []) (n - 1) (minus b init)
  removed-Stands left =
      let c = f (count z) in
      let d = minus c 1 in
      let v = parity_left f init z in
      let f1 = update f (count z) d in
      let g = removed f init z in
      let a1 = Agree-update cap f (count z) d us (around (count z) (omega arith) (omega arith)) in
      let a2 =
        Agree-update cap f1 (parity z) v us (around (parity z) (omega arith) (omega arith)) in
      let one_less : c ≡ suc d = omega (arith, counted, last_full.0) in
      let number : g (count z) ≡ d = ground arith in
      let cells1 : sum_to g (accounts z) d ≡ sum_to f1 (accounts z) d =
        sum_to-outside f1 (accounts z) (parity z) v d (inl (omega arith)) in
      let cells2 : sum_to f1 (accounts z) d ≡ sum_to f (accounts z) d =
        sum_to-outside f (accounts z) (count z) d d (inl (omega arith)) in
      let par : g (parity z) ≡ v = ground arith in
      let link : g (next z) ≡ 0 = ground (arith, last_link) in
      let all : sum_to g (accounts z) (g (count z)) ≡ sum_to f (accounts z) d =
        rw number (cells1 ∙ cells2) in
      let before : sum_to f (accounts z) c ≡ f (cell (accounts z) d) + sum_to f (accounts z) d =
        subst (λ k. sum_to f (accounts z) k ≡ f (cell (accounts z) d) + sum_to f (accounts z) d)
          (sym one_less) refl in
      changed cap f g at us z [] [] l full (Agree-trans cap f f1 g us a1 a2) link laid
        (omega (arith, number), omega (arith, number, last_full.1)) tt (n - 1) (minus b init)
        (omega (arith, number, counted)) (omega (arith, all, par, before, summed))
