-- ===== src/Exchange/Correct.antt =====
-- What the consumer has is what the producer made, and `main` finds that.
use cs_453_concurrent_algori.Common.{
  ℕ, zero, suc, ◌+◌, ◌<◌, ◌≤◌, ◌≡◌, refl, sym, ap, subst, true, arith,
}
use cs_453_concurrent_algori.Exchange.{
  Data, Globals, are_same, looks_correct, looks, Exchange, Step, full, may_produce, fill, put,
  publish, empty, may_consume, take, release, Reach, start, later,
}
use cs_453_concurrent_algori.Exchange.Ring.{
  Inv, start-Inv, may_produce-Inv, fill-Inv, put-Inv, publish-Inv, may_consume-Inv, take-Inv,
  release-Inv,
}

abbrev pub Invariant : ℕ → Exchange → Type 0
Invariant size e = Inv size e.globals e.producer e.consumer

step-Invariant :
    (runs size text_size : ℕ) (e f : Exchange)
    → Invariant size e
    → Step runs size text_size e f
    → Invariant size f
step-Invariant runs size ts e f inv (full r p h t) = inv
step-Invariant runs size ts e f inv (may_produce r p h t) =
    may_produce-Inv size e.globals r e.consumer t
      (subst (λ q. Inv size e.globals q e.consumer) p inv)
step-Invariant runs size ts e f inv (fill r random p) =
    fill-Inv size e.globals r ts random e.consumer
      (subst (λ q. Inv size e.globals q e.consumer) p inv)
step-Invariant runs size ts e f inv (put r p) =
    put-Inv size e.globals r e.consumer (subst (λ q. Inv size e.globals q e.consumer) p inv)
step-Invariant runs size ts e f inv (publish r p) =
    publish-Inv size e.globals r e.consumer (subst (λ q. Inv size e.globals q e.consumer) p inv)
step-Invariant runs size ts e f inv (empty r p h t) = inv
step-Invariant runs size ts e f inv (may_consume r p h t) =
    may_consume-Inv size e.globals r e.producer t (subst (Inv size e.globals e.producer) p inv)
step-Invariant runs size ts e f inv (take r p) =
    take-Inv size e.globals r e.producer (subst (Inv size e.globals e.producer) p inv)
step-Invariant runs size ts e f inv (release r p) =
    release-Inv size e.globals r e.producer (subst (Inv size e.globals e.producer) p inv)

pub Reach-Invariant :
    (runs size text_size : ℕ) (e : Exchange) → Reach runs size text_size e → Invariant size e
Reach-Invariant runs size ts e start = start-Inv size
Reach-Invariant runs size ts e (later {e = d} h s) =
    step-Invariant runs size ts d e (Reach-Invariant runs size ts d h) s

are_same_refl : (rounds i : ℕ) (a b : Data) → a ≡ b → are_same rounds i a b ≡ true
unfolding are_same
are_same_refl zero i a b e = refl
are_same_refl (suc rounds) i a b e =
    let here : a i ≡ b i = ap (λ t. t i) e in
    let rest = are_same_refl rounds (suc i) a b e in ground (arith, here, rest)

pub looks_correct-passed :
    (text_size rounds r : ℕ) (g : Globals)
    → ((k : ℕ) → r ≤ k → k < r + rounds → g.consumed k ≡ g.produced k)
    → looks_correct text_size rounds r g ≡ true
unfolding looks_correct
looks_correct-passed ts zero r g h = refl
looks_correct-passed ts (suc rounds) r g h =
    let here =
      are_same_refl ts 0 (g.produced r) (g.consumed r) (sym (h r (omega arith) (omega arith))) in
    let rest =
      looks_correct-passed ts rounds (suc r) g (λ k i j. h k (omega arith) (omega arith)) in
    ground (arith, here, rest)

-- In every state that the producer and the consumer can reach, with any number of rounds, any size of the
-- buffer and any data: no more rounds are consumed than produced, at most `size` of them are in the
-- buffer, and each consumed round has the data that were produced for it. So if the consumer is through,
-- `main` finds no round whose data differ.
pub exchange-Correct :
    (runs size text_size : ℕ) (e : Exchange)
    → Reach runs size text_size e
    → (e.globals.consumed_until ≤ e.globals.produced_until)
      × (e.globals.produced_until ≤ e.globals.consumed_until + size)
      × ((k : ℕ) → k < e.globals.consumed_until → e.globals.consumed k ≡ e.globals.produced k)
      × (e.consumer ≡ looks runs → looks_correct text_size runs 0 e.globals ≡ true)
exchange-Correct runs size ts e h =
    let inv = Reach-Invariant runs size ts e h in (inv.order, inv.room, inv.passed_on, through inv)
  where
    through : Invariant size e → e.consumer ≡ looks runs → looks_correct ts runs 0 e.globals ≡ true
    through inv c =
        let all : e.globals.consumed_until ≡ runs =
          (subst (Inv size e.globals e.producer) c inv).taken in
        looks_correct-passed ts runs 0 e.globals (λ k i j. inv.passed_on k (omega (arith, all)))
