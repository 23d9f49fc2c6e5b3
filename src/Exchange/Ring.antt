-- ===== src/Exchange/Ring.antt =====
-- The ring buffer: what holds in every state of the two threads.
use cs_453_concurrent_algori.Common.{
  ℕ, suc, ◌+◌, ◌*◌, ◌/◌, ◌%◌, ◌<◌, ◌≤◌, ◌≡◌, ◌≢◌, ◌∙◌, refl, sym, ap, subst, true, update_ne,
  update_self, arith, ℕ_discrete,
}
use native.Mathlib.Omega.{div_any}
use native.Mathlib.Nat.{lt_of_mul-lt-mul_left, mul-le-mul_left, mul-suc}
use cs_453_concurrent_algori.Exchange.{
  Data, fill_text, Globals, zeroed, can_produce, can_consume, fill_produced, put_in_buffer,
  count_produced, take_from_buffer, count_consumed, Producer, tests, fills, puts, counts, Consumer,
  looks, takes, ticks,
}

-- Two rounds less than `size` apart have different cells.
pub cells_differ : (size k m : ℕ) → k < m → m < k + size → k % size ≢ m % size
cells_differ size k m h i e =
    let a = div_any k size in
    let b = div_any m size in
    let below : k / size < m / size = lt_of_mul-lt-mul_left size (omega arith) in
    let step : size * suc (k / size) ≤ size * (m / size) = mul-le-mul_left size below in
    let grow : size * suc (k / size) ≡ size * (k / size) + size = mul-suc size (k / size) in
    omega arith

abbrev pub producer_round : Producer → ℕ
producer_round (tests r) = r
producer_round (fills r) = r
producer_round (puts r) = r
producer_round (counts r) = r

abbrev pub consumer_round : Consumer → ℕ
consumer_round (looks r) = r
consumer_round (takes r) = r
consumer_round (ticks r) = r

-- Behind its test, the producer has a free cell. Before it counts, its data are there.
abbrev pub Produces : ℕ → Globals → Producer → Type 0
Produces size g (tests r) = Unit
Produces size g (fills r) = r < g.consumed_until + size
Produces size g (puts r) = r < g.consumed_until + size
Produces size g (counts r) = (r < g.consumed_until + size) × (g.buffer (r % size) ≡ g.produced r)

-- Behind its test, the consumer has data to take. Before it counts, it has them.
abbrev pub Consumes : Globals → Consumer → Type 0
Consumes g (looks r) = Unit
Consumes g (takes r) = r < g.produced_until
Consumes g (ticks r) = (r < g.produced_until) × (g.consumed r ≡ g.produced r)

pub record Inv (size : ℕ) (g : Globals) (p : Producer) (c : Consumer) : Type 0 where
  pub made : g.produced_until ≡ producer_round p
  pub taken : g.consumed_until ≡ consumer_round c
  pub order : g.consumed_until ≤ g.produced_until
  pub room : g.produced_until ≤ g.consumed_until + size
  pub pending :
      (k : ℕ) → g.consumed_until ≤ k → k < g.produced_until → g.buffer (k % size) ≡ g.produced k
  pub passed_on : (k : ℕ) → k < g.consumed_until → g.consumed k ≡ g.produced k
  pub produces : Produces size g p
  pub consumes : Consumes g c

pub start-Inv : (size : ℕ) → Inv size zeroed (tests 0) (looks 0)
start-Inv size = record {
  made = refl;
  taken = refl;
  order = omega arith;
  room = omega arith;
  pending = λ k h i. refl;
  passed_on = λ k h. refl;
  produces = tt;
  consumes = tt;
}

module _ (size : ℕ) (g : Globals) (r : ℕ) where
  pub may_produce-Inv :
      (c : Consumer) → can_produce size r g ≡ true → Inv size g (tests r) c → Inv size g (fills r) c
  may_produce-Inv c h inv = record {
    made = inv.made;
    taken = inv.taken;
    order = inv.order;
    room = inv.room;
    pending = inv.pending;
    passed_on = inv.passed_on;
    produces = ground arith;
    consumes = inv.consumes;
  }

  fill-Consumes :
      (text_size : ℕ) (random : Data) (c : Consumer)
      → g.produced_until ≤ r
      → Consumes g c
      → Consumes (fill_produced text_size random r g) c
  fill-Consumes ts random (looks k) h d = tt
  fill-Consumes ts random (takes k) h d = d
  fill-Consumes ts random (ticks k) h (d, e) =
      (d, e ∙ sym (update_ne g.produced r k (fill_text ts 0 random (g.produced r)) (omega arith)))

  pub fill-Inv :
      (text_size : ℕ) (random : Data) (c : Consumer)
      → Inv size g (fills r) c
      → Inv size (fill_produced text_size random r g) (puts r) c
  fill-Inv ts random c inv =
      let text = fill_text ts 0 random (g.produced r) in
      record {
        made = inv.made;
        taken = inv.taken;
        order = inv.order;
        room = inv.room;
        pending = λ k h i.
            inv.pending k h i ∙ sym (update_ne g.produced r k text (omega (arith, inv.made)));
        passed_on = λ k h.
            inv.passed_on k h
            ∙ sym (update_ne g.produced r k text (omega (arith, inv.made, inv.order)));
        produces = inv.produces;
        consumes = fill-Consumes ts random c (omega (arith, inv.made)) inv.consumes;
      }

  put-Consumes : (c : Consumer) → Consumes g c → Consumes (put_in_buffer size r g) c
  put-Consumes (looks k) d = tt
  put-Consumes (takes k) d = d
  put-Consumes (ticks k) d = d

  pub put-Inv :
      (c : Consumer) → Inv size g (puts r) c → Inv size (put_in_buffer size r g) (counts r) c
  put-Inv c inv = record {
    made = inv.made;
    taken = inv.taken;
    order = inv.order;
    room = inv.room;
    pending = λ k h i.
        update_ne g.buffer (r % size) (k % size) (g.produced r)
          (cells_differ size k r (omega (arith, inv.made)) (omega (arith, inv.produces)))
        ∙ inv.pending k h i;
    passed_on = inv.passed_on;
    produces = (inv.produces, update_self g.buffer (r % size) (g.produced r));
    consumes = put-Consumes c inv.consumes;
  }

  publish-Consumes : (c : Consumer) → Consumes g c → Consumes (count_produced g) c
  publish-Consumes (looks k) d = tt
  publish-Consumes (takes k) d = omega arith
  publish-Consumes (ticks k) (d, e) = (omega arith, e)

  pub publish-Inv :
      (c : Consumer) → Inv size g (counts r) c → Inv size (count_produced g) (tests (suc r)) c
  publish-Inv c inv =
      let (room, there) = inv.produces in
      record {
        made = ap suc inv.made;
        taken = inv.taken;
        order = omega (arith, inv.order);
        room = omega (arith, inv.made);
        pending = λ k h i. elim (ℕ_discrete k r) [
          | yes e ↦ subst (λ j. g.buffer (j % size) ≡ g.produced j) (sym e) there
          | no e ↦ inv.pending k h (omega (arith, inv.made))
        ];
        passed_on = inv.passed_on;
        produces = tt;
        consumes = publish-Consumes c inv.consumes;
      }

  pub may_consume-Inv :
      (p : Producer) → can_consume r g ≡ true → Inv size g p (looks r) → Inv size g p (takes r)
  may_consume-Inv p h inv = record {
    made = inv.made;
    taken = inv.taken;
    order = inv.order;
    room = inv.room;
    pending = inv.pending;
    passed_on = inv.passed_on;
    produces = inv.produces;
    consumes = ground arith;
  }

  take-Produces : (p : Producer) → Produces size g p → Produces size (take_from_buffer size r g) p
  take-Produces (tests k) d = tt
  take-Produces (fills k) d = d
  take-Produces (puts k) d = d
  take-Produces (counts k) d = d

  pub take-Inv :
      (p : Producer) → Inv size g p (takes r) → Inv size (take_from_buffer size r g) p (ticks r)
  take-Inv p inv =
      let got = g.buffer (r % size) in
      record {
        made = inv.made;
        taken = inv.taken;
        order = inv.order;
        room = inv.room;
        pending = inv.pending;
        passed_on =
            λ k h. update_ne g.consumed r k got (omega (arith, inv.taken)) ∙ inv.passed_on k h;
        produces = take-Produces p inv.produces;
        consumes = (
          inv.consumes,
          update_self g.consumed r got
              ∙ inv.pending r (omega (arith, inv.taken)) (omega (arith, inv.consumes)),
        );
      }

  release-Produces : (p : Producer) → Produces size g p → Produces size (count_consumed g) p
  release-Produces (tests k) d = tt
  release-Produces (fills k) d = omega arith
  release-Produces (puts k) d = omega arith
  release-Produces (counts k) (d, e) = (omega arith, e)

  pub release-Inv :
      (p : Producer) → Inv size g p (ticks r) → Inv size (count_consumed g) p (looks (suc r))
  release-Inv p inv =
      let (behind, there) = inv.consumes in
      record {
        made = inv.made;
        taken = ap suc inv.taken;
        order = omega (arith, inv.taken);
        room = omega (arith, inv.room);
        pending = λ k h i. inv.pending k (omega arith) i;
        passed_on = λ k h. elim (ℕ_discrete k r) [
          | yes e ↦ subst (λ j. g.consumed j ≡ g.produced j) (sym e) there
          | no e ↦ inv.passed_on k (omega (arith, inv.taken))
        ];
        produces = release-Produces p inv.produces;
        consumes = tt;
      }
