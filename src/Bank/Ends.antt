-- ===== src/Bank/Ends.antt =====
-- `alloc_tx` at the last segment, on every branch.
use cs_453_concurrent_algori.Common.{
  ℕ, ◌+◌, ◌-◌, ◌<◌, ◌≡◌, ◌≢◌, inl, inr, refl, sym, ap, subst, ◌∙◌, List, [], ◌∷◌, ◌++◌, arith, some,
  Bool, true, false, ◌&&◌, ltb, if◌then◌else◌, dec_lt, ℕ_discrete,
}
use cs_453_concurrent_algori.Transactional.{Result, value}
use cs_453_concurrent_algori.Transactional.Atomic.{Memory, Placement, exec, granted, without}
use cs_453_concurrent_algori.Bank.{wrap, minus, segment_size, count, next, at_last}
use cs_453_concurrent_algori.Bank.Segments.{ApartFrom, total_count}
use cs_453_concurrent_algori.Bank.Last.{
  last_of, added, grown, removed, shrunk, Ends-added, Ends-grown, Ends-removed, Ends-shrunk,
}
use cs_453_concurrent_algori.Bank.Accounts.{Stands, added-Stands, removed-Stands}
use cs_453_concurrent_algori.Bank.Grown.{snoc_two, grown-Stands}
use cs_453_concurrent_algori.Bank.Closing.{shrunk-Stands, front_view, last_of-snoc}

-- Whether `alloc_tx` takes an account away
abbrev pub takes : ℕ → ℕ → Bool
takes trigger n = ltb trigger n && ltb 2 n

abbrev pub new_number : ℕ → ℕ → ℕ
new_number trigger n = if takes trigger n then n - 1 else n + 1

abbrev pub new_balance : ℕ → ℕ → ℕ → ℕ → ℕ
new_balance init trigger n b = if takes trigger n then minus b init else b + init

-- The transaction ends without an exception, and some list of segments with those numbers is in memory.
abbrev pub LeavesList : ℕ → ℕ → Memory × Result (Unit {0}) → ℕ → ℕ → Type 0
LeavesList cap start r n b =
    (m' : Memory) × (xs : List ℕ) × (r ≡ (m', value tt)) × Stands cap m'.content start xs n b

-- The numbers may be replaced by equal ones.
Stands-cast :
    {cap : ℕ} {f : ℕ → ℕ} {at : ℕ} {xs : List ℕ} {n n' b b' : ℕ}
    → n ≡ n'
    → wrap b ≡ wrap b'
    → Stands cap f at xs n b
    → Stands cap f at xs n' b'
Stands-cast p q s = record {
  listed = s.listed;
  laid = s.laid;
  filled = s.filled;
  number = s.number ∙ p;
  balance = s.balance ∙ q;
}

module _ (place : Placement) (m : Memory) (init cap trigger : ℕ) (start : ℕ) (us : List ℕ) (z b : ℕ)
    (s : Stands cap m.content start (us ++ z ∷ []) (total_count m.content (us ++ z ∷ [])) b)
    (small : total_count m.content (us ++ z ∷ []) + 1 < 0x10000000000000000) where
  abbrev n : ℕ
  n = total_count m.content (us ++ z ∷ [])

  abbrev at_end : Memory × Result (Unit {0})
  at_end = exec place m (at_last init cap trigger n (last_of 0 us) z (m.content (count z)))

  pub adds :
      (a : ℕ)
      → 0 < cap
      → place m (segment_size cap) ≡ some a
      → a ≢ 0
      → ApartFrom cap a (us ++ z ∷ [])
      → takes trigger n ≡ false
      → LeavesList cap start at_end (n + 1) (b + init)
  adds a positive placed nz apart keep = elim (dec_lt (m.content (count z)) cap) [
    | yes room ↦ (
      record m { content = added m.content init z },
      us ++ z ∷ [],
      Ends-added place m init cap trigger n (last_of 0 us) z keep room,
      Stands-cast refl (omega (arith, s.balance))
          (added-Stands cap init m.content start us z s.listed s.laid s.filled small room),
    )
    | no full ↦ (
      record (granted m a (segment_size cap)) { content = grown m.content init cap z a },
      us ++ z ∷ a ∷ [],
      Ends-grown place m init cap trigger n (last_of 0 us) z a keep (omega arith) placed,
      Stands-cast refl (omega (arith, s.balance)) (
          grown-Stands cap init m.content start us z s.listed s.laid s.filled small a nz apart
            positive (omega arith)),
    )
  ]

  takes_one :
      takes trigger n ≡ true
      → 0 < minus (m.content (count z)) 1
      → LeavesList cap start at_end (n - 1) (minus b init)
  takes_one take left = (
    record m { content = removed m.content init z },
    us ++ z ∷ [],
    Ends-removed place m init cap trigger n (last_of 0 us) z take left,
    Stands-cast refl (omega (arith, s.balance))
        (removed-Stands cap init m.content start us z s.listed s.laid s.filled small left),
  )

-- The last segment loses its last account, and `p` stands before it.
frees :
    (place : Placement) (m : Memory) (init cap trigger seen start : ℕ) (ws : List ℕ) (p z b : ℕ)
    → Stands cap m.content start (ws ++ p ∷ z ∷ []) (total_count m.content (ws ++ p ∷ z ∷ [])) b
    → total_count m.content (ws ++ p ∷ z ∷ []) + 1 < 0x10000000000000000
    → takes trigger seen ≡ true
    → minus (m.content (count z)) 1 ≡ 0
    → LeavesList cap start
        (exec place m
          (at_last init cap trigger seen (last_of 0 (ws ++ p ∷ [])) z (m.content (count z))))
        (total_count m.content (ws ++ p ∷ z ∷ []) - 1)
        (minus b init)
frees place m init cap trigger seen start ws p z b s small take none_left =
    let go : LeavesList cap start
        (exec place m (at_last init cap trigger seen p z (m.content (count z))))
        (total_count m.content (ws ++ p ∷ z ∷ []) - 1) (minus b init) =
      (
        record m {
          content = shrunk m.content init p z;
          blocks = without (m.content (next p)) m.blocks;
        },
        ws ++ p ∷ [],
        Ends-shrunk place m init cap trigger seen p z take none_left,
        Stands-cast refl (omega (arith, s.balance)) (
            shrunk-Stands cap init m.content start ws p z s.listed s.laid s.filled small none_left),
      ) in
    subst
      (λ q.
        LeavesList cap start
          (exec place m (at_last init cap trigger seen q z (m.content (count z))))
          (total_count m.content (ws ++ p ∷ z ∷ []) - 1) (minus b init))
      (sym (last_of-snoc 0 ws p)) go

-- With a single segment, the last account is not taken away.
not_alone :
    (cap trigger : ℕ) (f : ℕ → ℕ) (z : ℕ)
    → takes trigger (f (count z) + 0) ≡ true
    → f (count z) + 1 < 0x10000000000000000
    → minus (f (count z)) 1 ≢ 0
not_alone cap trigger f z take small = ground arith

-- Both ways to take an account away
pub removes :
    (place : Placement) (m : Memory) (init cap trigger start : ℕ) (us : List ℕ) (z b : ℕ)
    → Stands cap m.content start (us ++ z ∷ []) (total_count m.content (us ++ z ∷ [])) b
    → total_count m.content (us ++ z ∷ []) + 1 < 0x10000000000000000
    → takes trigger (total_count m.content (us ++ z ∷ [])) ≡ true
    → LeavesList cap start
        (exec place m (
          at_last init cap trigger
            (total_count m.content (us ++ z ∷ []))
            (last_of 0 us)
            z
            (m.content (count z))))
        (total_count m.content (us ++ z ∷ []) - 1)
        (minus b init)
removes place m init cap trigger start us z b s small take =
    elim (ℕ_discrete (minus (m.content (count z)) 1) 0) [
      | no left ↦ takes_one place m init cap trigger start us z b s small take (omega arith)
      | yes none_left ↦ elim (front_view us) [
        | inl e ↦ absurd (
            let whole : total_count m.content (us ++ z ∷ []) ≡ m.content (count z) + 0 =
              ap (λ vs. total_count m.content (vs ++ z ∷ [])) e in
            not_alone cap trigger m.content z (subst (λ k. takes trigger k ≡ true) whole take)
              (omega (arith, whole)) none_left)
        | inr (ws, p, e) ↦
            let two : us ++ z ∷ [] ≡ ws ++ p ∷ z ∷ [] =
              ap (λ vs. vs ++ z ∷ []) e ∙ snoc_two ws p z in
            let seen = total_count m.content (us ++ z ∷ []) in
            let same : total_count m.content (ws ++ p ∷ z ∷ []) ≡ seen =
              ap (total_count m.content) (sym two) in
            let s2 : Stands cap m.content start (ws ++ p ∷ z ∷ [])
                (total_count m.content (ws ++ p ∷ z ∷ [])) b =
              subst (λ xs. Stands cap m.content start xs (total_count m.content xs) b) two s in
            subst
              (λ vs.
                LeavesList cap start
                  (exec place m
                    (at_last init cap trigger seen (last_of 0 vs) z (m.content (count z))))
                  (seen - 1) (minus b init))
              (sym e)
              (subst
                (λ k.
                  LeavesList cap start
                    (exec place m (
                      at_last init cap trigger seen (last_of 0 (ws ++ p ∷ [])) z
                        (m.content (count z))))
                    (k - 1) (minus b init))
                same
                (frees place m init cap trigger seen start ws p z b s2 (omega (arith, same)) take
                  none_left))
      ]
    ]
