-- ===== src/Bank/Last.antt =====
-- `alloc_tx` up to the last segment of the list, and the writes that it makes there.
use cs_453_concurrent_algori.Common.{
  ℕ, zero, suc, ◌+◌, ◌≤◌, ◌<◌, ◌≡◌, ◌≢◌, sym, ap, subst, ◌∙◌, List, [], ◌∷◌, ◌++◌, update, arith,
  some, true, false, ◌&&◌, ltb,
}
use cs_453_concurrent_algori.Transactional.{Prog, ◌>>=◌, value}
use cs_453_concurrent_algori.Transactional.Shared.{cell, shared_write}
use cs_453_concurrent_algori.Transactional.Atomic.{
  Memory, Placement, exec, exec_allocs, granted, without, zero_from,
}
use cs_453_concurrent_algori.Bank.{
  wrap, minus, segment_size, count, next, parity, accounts, remove_account, add_account, at_last,
  alloc_walk,
}
use cs_453_concurrent_algori.Bank.Segments.{Listed, total_count}
use cs_453_concurrent_algori.Bank.Search.{length}

-- The segment before the last one, or `prev`
abbrev pub last_of : ℕ → List ℕ → ℕ
last_of prev [] = prev
last_of prev (x ∷ xs) = last_of x xs

module _ (place : Placement) (m : Memory) (rounds init cap trigger total prev at : ℕ) where
  walk_on :
      m.content (next at) ≢ 0
      → exec place m (alloc_walk (suc rounds) init cap trigger total prev at)
        ≡ exec place m (
            alloc_walk rounds init cap trigger
              (wrap (total + m.content (count at)))
              at
              (m.content (next at)))
  unfolding exec alloc_walk
  walk_on h = ground arith

  walk_end :
      m.content (next at) ≡ 0
      → exec place m (alloc_walk (suc rounds) init cap trigger total prev at)
        ≡ exec place m (
            at_last init cap trigger
              (wrap (total + m.content (count at)))
              prev
              at
              (m.content (count at)))
  unfolding exec alloc_walk
  walk_end h = ground arith

pub exec-alloc_walk :
    (place : Placement) (m : Memory) (rounds init cap trigger total prev at : ℕ) (ys : List ℕ)
    (z : ℕ)
    → Listed m.content at (ys ++ z ∷ [])
    → length ys < rounds
    → exec place m (alloc_walk rounds init cap trigger total prev at)
      ≡ exec place m (
          at_last init cap trigger
            (wrap (total + total_count m.content (ys ++ z ∷ [])))
            (last_of prev ys)
            z
            (m.content (count z)))
exec-alloc_walk place m zero init cap trigger total prev at ys z l h = absurd (omega arith)
exec-alloc_walk place m (suc rounds) init cap trigger total prev at [] z (e, nz, l) h =
    let f = m.content in
    let seen : wrap (total + f (count z)) ≡ wrap (total + (f (count z) + 0)) = omega arith in
    subst
      (λ a.
        exec place m (alloc_walk (suc rounds) init cap trigger total prev a)
        ≡ exec place m
            (at_last init cap trigger (wrap (total + (f (count z) + 0))) prev z (f (count z))))
      (sym e)
      (walk_end place m rounds init cap trigger total prev z l
        ∙ ap (λ k. exec place m (at_last init cap trigger k prev z (f (count z)))) seen)
exec-alloc_walk place m (suc rounds) init cap trigger total prev at (y ∷ ys) z (e, nz, l) h =
    let f = m.content in
    let rest =
      exec-alloc_walk place m rounds init cap trigger (wrap (total + f (count y))) y (f (next y)) ys
        z l (omega arith) in
    let more : f (next y) ≢ 0 = not_last ys l in
    let tail = total_count f (ys ++ z ∷ []) in
    let seen : wrap (wrap (total + f (count y)) + tail) ≡ wrap (total + (f (count y) + tail)) =
      omega arith in
    subst
      (λ a.
        exec place m (alloc_walk (suc rounds) init cap trigger total prev a)
        ≡ exec place m (
            at_last init cap trigger (wrap (total + (f (count y) + tail))) (last_of y ys) z
              (f (count z))))
      (sym e)
      (walk_on place m rounds init cap trigger total prev y more
        ∙ rest
        ∙ ap (λ k. exec place m (at_last init cap trigger k (last_of y ys) z (f (count z)))) seen)
  where
    not_last :
        (zs : List ℕ)
        → Listed m.content (m.content (next y)) (zs ++ z ∷ [])
        → m.content (next y) ≢ 0
    not_last [] (a, b, c) k = b (sym a ∙ k)
    not_last (w ∷ ws) (a, b, c) k = b (sym a ∙ k)

-- What the four ways to end leave in memory
abbrev pub added : (ℕ → ℕ) → ℕ → ℕ → ℕ → ℕ
added f init z =
    update (update f (cell (accounts z) (f (count z))) init) (count z) (wrap (f (count z) + 1))

abbrev pub grown : (ℕ → ℕ) → ℕ → ℕ → ℕ → ℕ → ℕ → ℕ
grown f init cap z a =
    update (update (update (zero_from f a (segment_size cap)) (next z) a) (count a) 1)
      (cell (accounts a) 0) init

-- The parity that takes up the last account's balance
abbrev pub parity_left : (ℕ → ℕ) → ℕ → ℕ → ℕ
parity_left f init z =
    minus (wrap (f (parity z) + f (cell (accounts z) (minus (f (count z)) 1)))) init

abbrev pub removed : (ℕ → ℕ) → ℕ → ℕ → ℕ → ℕ
removed f init z =
    update (update f (count z) (minus (f (count z)) 1)) (parity z) (parity_left f init z)

abbrev pub shrunk : (ℕ → ℕ) → ℕ → ℕ → ℕ → ℕ → ℕ
shrunk f init p z =
    update (update f (next p) 0) (parity p)
      (wrap (update f (next p) 0 (parity p) + parity_left f init z))

module _ (place : Placement) (m : Memory) (init cap trigger seen prev z : ℕ) where
  abbrev Ends : Memory → Type 0
  Ends m' =
      exec place m (at_last init cap trigger seen prev z (m.content (count z))) ≡ (m', value tt)

  pub Ends-added :
      ltb trigger seen && ltb 2 seen ≡ false
      → m.content (count z) < cap
      → Ends (record m { content = added m.content init z })
  unfolding exec at_last add_account
  Ends-added h k = ground arith

  add_new :
      ltb trigger seen && ltb 2 seen ≡ false
      → cap ≤ m.content (count z)
      → exec place m (at_last init cap trigger seen prev z (m.content (count z)))
        ≡ exec place m (
            Prog.allocs (segment_size cap) (λ a. shared_write (next z) a >>= λ _.
            shared_write (count a) 1 >>= λ _. shared_write (cell (accounts a) 0) init))
  unfolding at_last add_account
  add_new h k = ground arith

  pub Ends-grown :
      (a : ℕ)
      → ltb trigger seen && ltb 2 seen ≡ false
      → cap ≤ m.content (count z)
      → place m (segment_size cap) ≡ some a
      → Ends (record (granted m a (segment_size cap)) { content = grown m.content init cap z a })
  unfolding exec
  Ends-grown a h k e =
      add_new h k
      ∙ exec_allocs place (segment_size cap)
          (λ b. shared_write (next z) b >>= λ _.
            shared_write (count b) 1 >>= λ _. shared_write (cell (accounts b) 0) init)
          m a e

  pub Ends-removed :
      ltb trigger seen && ltb 2 seen ≡ true
      → 0 < minus (m.content (count z)) 1
      → Ends (record m { content = removed m.content init z })
  unfolding exec at_last remove_account
  Ends-removed h k = ground arith

  pub Ends-shrunk :
      ltb trigger seen && ltb 2 seen ≡ true
      → minus (m.content (count z)) 1 ≡ 0
      → Ends (record m {
        content = shrunk m.content init prev z;
        blocks = without (m.content (next prev)) m.blocks;
      })
  unfolding exec at_last remove_account
  Ends-shrunk h k = ground arith
