-- ===== src/Exchange/Excluding.antt =====
-- sync-examples/procon2.c: the threads exclude each other, and refine those with atomic counters.
use cs_453_concurrent_algori.Common.{ℕ, ◌+◌, ◌<◌, ◌≤◌, ◌≡◌, refl, subst, if◌then◌else◌, arith, done}
use cs_453_concurrent_algori.Lock.{Lock, lock_acquire, lock_release}
use cs_453_concurrent_algori.Exchange.{
  Globals, may_produce, fill, put, publish, may_consume, take, release, Reach, start, later,
}
use cs_453_concurrent_algori.Exchange.Spinning.{
  SpinProducer, outside, inside, SpinConsumer, c_outside, c_inside, Spin, Produce, acquires, fails,
  retries, passes, fills_in, puts_in, counts_up, releases, Consume, c_acquires, c_fails, c_retries,
  c_passes, takes_out, counts_off, c_releases, SpinReach, spin, produced, consumed, bare_producer,
  bare_consumer, bare,
}

-- A thread has the lock but before it acquires it.
abbrev pub producer_holds : SpinProducer → ℕ
producer_holds (outside r) = 0
producer_holds _ = 1

abbrev pub consumer_holds : SpinConsumer → ℕ
consumer_holds (c_outside r) = 0
consumer_holds _ = 1

abbrev pub held : Lock → ℕ
held l = if l.mutex then 1 else 0

pub held-acquire : (l l' : Lock) → lock_acquire l ≡ done l' → (held l ≡ 0) × (held l' ≡ 1)
unfolding lock_acquire
held-acquire l l' e = ground arith

pub held-release : (l l' : Lock) → lock_release l ≡ done l' → (held l ≡ 1) × (held l' ≡ 0)
unfolding lock_release
held-release l l' e = ground arith

abbrev ProducerInRange : ℕ → SpinProducer → Type 0
ProducerInRange runs (inside r) = r < runs
ProducerInRange runs _ = Unit

abbrev ConsumerInRange : ℕ → SpinConsumer → Type 0
ConsumerInRange runs (c_inside r) = r < runs
ConsumerInRange runs _ = Unit

module _ (runs size text_size : ℕ) where
  -- The lock is held by one thread, or free with both outside, and the threads without it can be there.
  record Locked (g : Globals) (l : Lock) (p : SpinProducer) (c : SpinConsumer) : Type 0 where
    one : producer_holds p + consumer_holds c ≡ held l
    producer_range : ProducerInRange runs p
    consumer_range : ConsumerInRange runs c
    reach :
        Reach runs size text_size
          (record { globals = g; producer = bare_producer p; consumer = bare_consumer c })

  abbrev LockedSpin : Spin → Type 0
  LockedSpin e = Locked e.globals e.lock e.producer e.consumer

  Produce-Locked : (e f : Spin) → LockedSpin e → Produce runs size text_size e f → LockedSpin f
  Produce-Locked e f h (acquires r l p lt a) =
      let k = subst (λ q. Locked e.globals e.lock q e.consumer) p h in
      let (free, now) = held-acquire e.lock l a in
      record {
        one = omega (arith, k.one);
        producer_range = lt;
        consumer_range = k.consumer_range;
        reach = k.reach;
      }
  Produce-Locked e f h (fails r p t) =
      let k = subst (λ q. Locked e.globals e.lock q e.consumer) p h in
      record {
        one = k.one;
        producer_range = tt;
        consumer_range = k.consumer_range;
        reach = k.reach;
      }
  Produce-Locked e f h (retries r l p a) =
      let k = subst (λ q. Locked e.globals e.lock q e.consumer) p h in
      let (taken, now) = held-release e.lock l a in
      record {
        one = omega (arith, k.one);
        producer_range = tt;
        consumer_range = k.consumer_range;
        reach = k.reach;
      }
  Produce-Locked e f h (passes r p t) =
      let k = subst (λ q. Locked e.globals e.lock q e.consumer) p h in
      record {
        one = k.one;
        producer_range = tt;
        consumer_range = k.consumer_range;
        reach = later k.reach (may_produce r refl k.producer_range t);
      }
  Produce-Locked e f h (fills_in r random p) =
      let k = subst (λ q. Locked e.globals e.lock q e.consumer) p h in
      record {
        one = k.one;
        producer_range = tt;
        consumer_range = k.consumer_range;
        reach = later k.reach (fill r random refl);
      }
  Produce-Locked e f h (puts_in r p) =
      let k = subst (λ q. Locked e.globals e.lock q e.consumer) p h in
      record {
        one = k.one;
        producer_range = tt;
        consumer_range = k.consumer_range;
        reach = later k.reach (put r refl);
      }
  Produce-Locked e f h (counts_up r p) =
      let k = subst (λ q. Locked e.globals e.lock q e.consumer) p h in
      record {
        one = k.one;
        producer_range = tt;
        consumer_range = k.consumer_range;
        reach = later k.reach (publish r refl);
      }
  Produce-Locked e f h (releases r l p a) =
      let k = subst (λ q. Locked e.globals e.lock q e.consumer) p h in
      let (taken, now) = held-release e.lock l a in
      record {
        one = omega (arith, k.one);
        producer_range = tt;
        consumer_range = k.consumer_range;
        reach = k.reach;
      }

  Consume-Locked : (e f : Spin) → LockedSpin e → Consume runs size text_size e f → LockedSpin f
  Consume-Locked e f h (c_acquires r l p lt a) =
      let k = subst (Locked e.globals e.lock e.producer) p h in
      let (free, now) = held-acquire e.lock l a in
      record {
        one = omega (arith, k.one);
        producer_range = k.producer_range;
        consumer_range = lt;
        reach = k.reach;
      }
  Consume-Locked e f h (c_fails r p t) =
      let k = subst (Locked e.globals e.lock e.producer) p h in
      record {
        one = k.one;
        producer_range = k.producer_range;
        consumer_range = tt;
        reach = k.reach;
      }
  Consume-Locked e f h (c_retries r l p a) =
      let k = subst (Locked e.globals e.lock e.producer) p h in
      let (taken, now) = held-release e.lock l a in
      record {
        one = omega (arith, k.one);
        producer_range = k.producer_range;
        consumer_range = tt;
        reach = k.reach;
      }
  Consume-Locked e f h (c_passes r p t) =
      let k = subst (Locked e.globals e.lock e.producer) p h in
      record {
        one = k.one;
        producer_range = k.producer_range;
        consumer_range = tt;
        reach = later k.reach (may_consume r refl k.consumer_range t);
      }
  Consume-Locked e f h (takes_out r p) =
      let k = subst (Locked e.globals e.lock e.producer) p h in
      record {
        one = k.one;
        producer_range = k.producer_range;
        consumer_range = tt;
        reach = later k.reach (take r refl);
      }
  Consume-Locked e f h (counts_off r p) =
      let k = subst (Locked e.globals e.lock e.producer) p h in
      record {
        one = k.one;
        producer_range = k.producer_range;
        consumer_range = tt;
        reach = later k.reach (release r refl);
      }
  Consume-Locked e f h (c_releases r l p a) =
      let k = subst (Locked e.globals e.lock e.producer) p h in
      let (taken, now) = held-release e.lock l a in
      record {
        one = omega (arith, k.one);
        producer_range = k.producer_range;
        consumer_range = tt;
        reach = k.reach;
      }

  reach-Locked : (e : Spin) → SpinReach runs size text_size e → LockedSpin e
  reach-Locked e spin = record {
    one = refl;
    producer_range = tt;
    consumer_range = tt;
    reach = start;
  }
  reach-Locked f (produced {e = e} h s) = Produce-Locked e f (reach-Locked e h) s
  reach-Locked f (consumed {e = e} h s) = Consume-Locked e f (reach-Locked e h) s

-- Every state that the threads with the lock reach is, without the lock, one that those with the atomic
-- counters reach; and of the two threads at most one has the lock, and none if the mutex is free.
pub spinning_refines :
    (runs size text_size : ℕ) (e : Spin)
    → SpinReach runs size text_size e
    → Reach runs size text_size (bare e)
      × (producer_holds e.producer + consumer_holds e.consumer ≡ held e.lock)
      × (held e.lock ≤ 1)
spinning_refines runs size ts e h =
    let k = reach-Locked runs size ts e h in (k.reach, k.one, ground arith)
