-- ===== src/Bank/Allocation.antt =====
-- `alloc_tx` of WorkloadBank as a whole.
use cs_453_concurrent_algori.Common.{
  ℕ, suc, ◌+◌, ◌≤◌, ◌<◌, ◌≡◌, ◌≢◌, inl, inr, refl, sym, ap, subst, ◌∙◌, List, [], ◌∷◌, ◌++◌, arith,
  some, Bool-cases,
}
use cs_453_concurrent_algori.Transactional.Atomic.{Memory, Placement, exec}
use cs_453_concurrent_algori.Bank.{segment_size, count, at_last, alloc_tx}
use cs_453_concurrent_algori.Bank.Segments.{Listed, ApartFrom, total_count}
use cs_453_concurrent_algori.Bank.Last.{last_of, exec-alloc_walk}
use cs_453_concurrent_algori.Bank.Search.{length}
use cs_453_concurrent_algori.Bank.Accounts.{Stands}
use cs_453_concurrent_algori.Bank.Closing.{front_view}
use cs_453_concurrent_algori.Bank.Ends.{takes, new_number, new_balance, LeavesList, adds, removes}

length-snoc : (us : List ℕ) (z : ℕ) → length (us ++ z ∷ []) ≡ suc (length us)
length-snoc [] z = refl
length-snoc (u ∷ us) z = ap suc (length-snoc us z)

module _ (place : Placement) (m : Memory) (rounds init cap trigger start : ℕ) (us : List ℕ)
    (z b a : ℕ) (positive : 0 < cap)
    (s : Stands cap m.content start (us ++ z ∷ []) (total_count m.content (us ++ z ∷ [])) b)
    (small : total_count m.content (us ++ z ∷ []) + 1 < 0x10000000000000000)
    (enough : length us < rounds) (placed : place m (segment_size cap) ≡ some a) (nz : a ≢ 0)
    (apart : ApartFrom cap a (us ++ z ∷ [])) where
  reaches :
      exec place m (alloc_tx rounds init cap start trigger)
      ≡ exec place m (
          at_last init cap trigger
            (total_count m.content (us ++ z ∷ []))
            (last_of 0 us)
            z
            (m.content (count z)))
  unfolding alloc_tx
  reaches =
      exec-alloc_walk place m rounds init cap trigger 0 0 start us z s.listed enough
      ∙ ap (λ k. exec place m (at_last init cap trigger k (last_of 0 us) z (m.content (count z))))
          (omega (arith, small))

  alloc_tx_list :
      LeavesList cap start
        (exec place m (alloc_tx rounds init cap start trigger))
        (new_number trigger (total_count m.content (us ++ z ∷ [])))
        (new_balance init trigger (total_count m.content (us ++ z ∷ [])) b)
  alloc_tx_list = elim (Bool-cases (takes trigger (total_count m.content (us ++ z ∷ [])))) [
    | inl e ↦ rw e (rw reaches (removes place m init cap trigger start us z b s small e))
    | inr e ↦ rw e (
        rw reaches
          (adds place m init cap trigger start us z b s small a positive placed nz apart e))
  ]

module _ (place : Placement) (m : Memory) (rounds init cap trigger start : ℕ) (xs : List ℕ)
    (n b a : ℕ) (positive : 0 < cap) (exists : start ≢ 0) (s : Stands cap m.content start xs n b)
    (small : n + 1 < 0x10000000000000000) (enough : length xs ≤ rounds)
    (placed : place m (segment_size cap) ≡ some a) (nz : a ≢ 0) (apart : ApartFrom cap a xs) where
  -- `alloc_tx` on a well-formed list of segments with `n` accounts whose balances and parities sum to `b`
  -- modulo 2 ^ 64, when the library has a block that is apart from the list: it ends without an
  -- exception, within as many rounds as there are segments. It leaves a well-formed list from the same
  -- first segment on. When `n` is above the trigger and above 2, that list has `n - 1` accounts and the sum
  -- `b` less `init`; else it has `n + 1` accounts and the sum `b + init`.
  pub alloc_tx-Stands :
      LeavesList cap start
        (exec place m (alloc_tx rounds init cap start trigger))
        (new_number trigger n)
        (new_balance init trigger n b)
  alloc_tx-Stands = elim (front_view xs) [
    | inl e ↦ absurd (exists (subst (Listed m.content start) e s.listed))
    | inr (us, z, e) ↦
        let k : n ≡ total_count m.content (us ++ z ∷ []) =
          sym s.number ∙ ap (total_count m.content) e in
        let s1 = subst (λ v. Stands cap m.content start xs v b) k s in
        let s2 : Stands cap m.content start (us ++ z ∷ []) (total_count m.content (us ++ z ∷ []))
            b =
          subst (λ ys. Stands cap m.content start ys (total_count m.content (us ++ z ∷ [])) b) e
            s1 in
        let size : length xs ≡ suc (length us) = ap length e ∙ length-snoc us z in
        let there =
          alloc_tx_list place m rounds init cap trigger start us z b a positive s2
            (omega (arith, k)) (omega (arith, size)) placed nz (subst (ApartFrom cap a) e apart) in
        subst
          (λ v.
            LeavesList cap start (exec place m (alloc_tx rounds init cap start trigger))
              (new_number trigger v) (new_balance init trigger v b))
          (sym k) there
  ]
