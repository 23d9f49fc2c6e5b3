-- ===== src/Bank/Grown.antt =====
-- `alloc_tx` where the last segment has no room: a new one is allocated for the account.
use cs_453_concurrent_algori.Common.{
  ℕ, ◌+◌, ◌≤◌, ◌<◌, ◌≡◌, ◌≢◌, refl, sym, ap, subst, ◌∙◌, List, [], ◌∷◌, ◌++◌, update, arith,
}
use cs_453_concurrent_algori.Transactional.Shared.{cell}
use cs_453_concurrent_algori.Transactional.Atomic.{zero_from}
use cs_453_concurrent_algori.Bank.{segment_size, count, next, parity, accounts}
use cs_453_concurrent_algori.Bank.Segments.{
  Listed, Apart, ApartFrom, Laid, Filled, sum_to, total_count, inside-OutsideAll,
}
use cs_453_concurrent_algori.Bank.Lists.{
  Agree-trans, Agree-update, agree-Untouched, Laid-snoc, zero_from-inside, zero_from-outside,
  zero_from-Agree, sum_to-agree,
}
use cs_453_concurrent_algori.Bank.Last.{grown}
use cs_453_concurrent_algori.Bank.Accounts.{
  Stands, changed, n, b, last_full, counted, summed, around,
}

ApartFrom-parts :
    (cap a : ℕ) (us : List ℕ) (z : ℕ)
    → ApartFrom cap a (us ++ z ∷ [])
    → ApartFrom cap a us × Apart cap a z
ApartFrom-parts cap a [] z (d, e) = (tt, d)
ApartFrom-parts cap a (u ∷ us) z (d, ds) = let (p, q) = ApartFrom-parts cap a us z ds in ((d, p), q)

pub snoc_two : (us : List ℕ) (z a : ℕ) → (us ++ z ∷ []) ++ a ∷ [] ≡ us ++ z ∷ a ∷ []
snoc_two [] z a = refl
snoc_two (u ∷ us) z a = ap (λ ws. u ∷ ws) (snoc_two us z a)

-- Addresses in two segments that are apart differ.
Apart-ne :
    (cap a z j k : ℕ)
    → Apart cap a z
    → a ≤ j
    → j < a + segment_size cap
    → z ≤ k
    → k < z + segment_size cap
    → k ≢ j
Apart-ne cap a z j k d p q r s e = ground arith

-- What is where once a segment was added
module _ (f : ℕ → ℕ) (init cap z a : ℕ) where
  grown_elsewhere :
      (k : ℕ)
      → k ≢ next z
      → k ≢ count a
      → k ≢ cell (accounts a) 0
      → grown f init cap z a k ≡ zero_from f a (segment_size cap) k
  grown_elsewhere k p q r = ground arith

  grown_link : next z ≢ count a → next z ≢ cell (accounts a) 0 → grown f init cap z a (next z) ≡ a
  grown_link p q = ground arith

  grown_count : count a ≢ cell (accounts a) 0 → grown f init cap z a (count a) ≡ 1
  grown_count p = ground arith

  grown-cell : grown f init cap z a (cell (accounts a) 0) ≡ init
  grown-cell = ground arith

module _ (cap init : ℕ) (f : ℕ → ℕ) (at : ℕ) (us : List ℕ) (z : ℕ) (l : Listed f at (us ++ z ∷ []))
    (laid : Laid cap (us ++ z ∷ [])) (full : Filled cap f (us ++ z ∷ []))
    (small : total_count f (us ++ z ∷ []) + 1 < 0x10000000000000000) (a : ℕ) (nz : a ≢ 0)
    (apart : ApartFrom cap a (us ++ z ∷ [])) (positive : 0 < cap)
    (no_room : cap ≤ f (count z)) where
  pub grown-Stands :
      Stands cap
        (grown f init cap z a)
        at
        (us ++ z ∷ a ∷ [])
        (n cap init f at us z l laid full small + 1)
        (b cap init f at us z l laid full small + init)
  grown-Stands =
      let h = zero_from f a (segment_size cap) in
      let h1 = update h (next z) a in
      let h2 = update h1 (count a) 1 in
      let g = grown f init cap z a in
      let (away, from_z) = ApartFrom-parts cap a us z apart in
      let c = f (count z) in
      let a0 = zero_from-Agree cap f a us away in
      let a1 =
        Agree-update cap h (next z) a us
          (around cap init f at us z l laid full small (next z) (omega arith) (omega arith)) in
      let a2 =
        Agree-update cap h1 (count a) 1 us
          (inside-OutsideAll cap a (count a) us away (omega arith) (omega arith)) in
      let a3 =
        Agree-update cap h2 (cell (accounts a) 0) init us
          (inside-OutsideAll cap a (cell (accounts a) 0) us away (omega arith) (omega arith)) in
      let agree =
        Agree-trans cap f h g us a0
          (Agree-trans cap h h1 g us a1 (Agree-trans cap h1 h2 g us a2 a3)) in
      let kept = λ (k : ℕ) (p : z ≤ k) (q : k < z + segment_size cap).
        zero_from-outside f a (segment_size cap) k (ground arith) in
      let old = agree-Untouched cap f h z kept (last_full cap init f at us z l laid full small).1 in
      let ne = Apart-ne cap a z in
      let number : g (count z) ≡ c =
        grown_elsewhere f init cap z a (count z) (omega arith)
          (ne (count a) (count z) from_z (omega arith) (omega arith) (omega arith) (omega arith))
          (ne (cell (accounts a) 0) (count z) from_z (omega arith) (omega arith) (omega arith)
            (omega arith))
        ∙ old.counted in
      let par : g (parity z) ≡ h (parity z) =
        grown_elsewhere f init cap z a (parity z) (omega arith)
          (ne (count a) (parity z) from_z (omega arith) (omega arith) (omega arith) (omega arith))
          (ne (cell (accounts a) 0) (parity z) from_z (omega arith) (omega arith) (omega arith)
            (omega arith)) in
      let link : g (next z) ≡ a =
        grown_link f init cap z a
          (ne (count a) (next z) from_z (omega arith) (omega arith) (omega arith) (omega arith))
          (ne (cell (accounts a) 0) (next z) from_z (omega arith) (omega arith) (omega arith)
            (omega arith)) in
      let cells : sum_to g (accounts z) c ≡ sum_to h (accounts z) c =
        sum_to-agree h g (accounts z) c (λ i q.
          grown_elsewhere f init cap z a (cell (accounts z) i) (omega arith)
            (ne (count a) (cell (accounts z) i) from_z (omega arith) (omega arith) (omega arith)
              (omega (arith, (last_full cap init f at us z l laid full small).1)))
            (ne (cell (accounts a) 0) (cell (accounts z) i) from_z (omega arith) (omega arith)
              (omega arith) (omega (arith, (last_full cap init f at us z l laid full small).1)))) in
      let all : sum_to g (accounts z) (g (count z)) ≡ sum_to h (accounts z) c = rw number cells in
      let all_h : sum_to h (accounts z) (h (count z)) ≡ sum_to h (accounts z) c =
        ap (sum_to h (accounts z)) old.counted in
      let count_a : g (count a) ≡ 1 = grown_count f init cap z a (omega arith) in
      let next_a : g (next a) ≡ 0 =
        grown_elsewhere f init cap z a (next a)
          (λ e.
            ne (next a) (next z) from_z (omega arith) (omega arith) (omega arith) (omega arith)
              (sym e))
          (omega arith) (omega arith)
        ∙ zero_from-inside f a (segment_size cap) (next a) (omega arith) (omega arith) in
      let parity_a : g (parity a) ≡ 0 =
        grown_elsewhere f init cap z a (parity a)
          (λ e.
            ne (parity a) (next z) from_z (omega arith) (omega arith) (omega arith) (omega arith)
              (sym e))
          (omega arith) (omega arith)
        ∙ zero_from-inside f a (segment_size cap) (parity a) (omega arith) (omega arith) in
      let cell_a : g (cell (accounts a) 0) ≡ init = grown-cell f init cap z a in
      let all_a : sum_to g (accounts a) (g (count a)) ≡ init = rw count_a (omega (arith, cell_a)) in
      changed cap f g at us z [] (a ∷ []) l full agree (link, nz, next_a)
        (subst (Laid cap) (snoc_two us z a) (Laid-snoc cap (us ++ z ∷ []) a laid apart))
        (
          omega (arith, number, (last_full cap init f at us z l laid full small).0),
          omega (arith, number, (last_full cap init f at us z l laid full small).1),
        )
        (omega (arith, count_a), omega (arith, count_a), tt)
        (n cap init f at us z l laid full small + 1) (b cap init f at us z l laid full small + init)
        (omega (arith, number, counted cap init f at us z l laid full small, count_a))
        (omega (
          arith,
          all,
          all_h,
          par,
          summed cap init f at us z l laid full small,
          parity_a,
          all_a,
          old.balance,
        ))
