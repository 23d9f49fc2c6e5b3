-- ===== src/Exchange/Calm.antt =====
-- sync-examples/procon4.c: what holds in every state of the two threads.
use cs_453_concurrent_algori.Common.{ℕ, suc, ◌+◌, ◌≡◌, inr, refl, subst, arith}
use cs_453_concurrent_algori.Lock.{Lock}
use cs_453_concurrent_algori.Exchange.{
  Globals, tests, looks, Reach, start, later, may_produce, fill, put, publish, may_consume, take,
  release,
}
use cs_453_concurrent_algori.Exchange.Excluding.{held, held-acquire, held-release}
use cs_453_concurrent_algori.Exchange.Sleeping.{
  NapProducer, NapConsumer, Nap, NapProduce, acquires, sleeps, acquires_again, passes, fills_in,
  puts_in, counts_up, releases, wakes, NapConsume, k_acquires, k_sleeps, k_acquires_again, k_passes,
  takes_out, counts_off, k_releases, k_wakes, NapReach, nap, produced, consumed, bare_nap_producer,
  bare_nap_consumer,
}
use cs_453_concurrent_algori.Exchange.Resting.{
  held-wait, held-wake_up, nap_producer_holds, nap_consumer_holds, producer_signals,
  consumer_signals, ProducerRests, ConsumerRests, ProducerRests-same, ConsumerRests-same,
  ProducerRests-wake_producer, ConsumerRests-wake_consumer, bare_nap_producer-wake_producer,
  bare_nap_consumer-wake_consumer, nap_producer_holds-wake_producer,
  nap_consumer_holds-wake_consumer,
}

module _ (runs size text_size : ℕ) where
  -- What holds in every state
  pub record Calm (g : Globals) (l : Lock) (p : NapProducer) (c : NapConsumer) : Type 0 where
    pub one : nap_producer_holds p + nap_consumer_holds c ≡ held l
    pub producer_rests : ProducerRests runs (g.consumed_until + size) (consumer_signals c) p
    pub consumer_rests : ConsumerRests runs g.produced_until (producer_signals p) c
    pub reach :
        Reach runs size text_size
          (record { globals = g; producer = bare_nap_producer p; consumer = bare_nap_consumer c })

  abbrev pub CalmNap : Nap → Type 0
  CalmNap e = Calm e.globals e.lock e.producer e.consumer

  produce-Calm : (e f : Nap) → CalmNap e → NapProduce runs size text_size e f → CalmNap f
  produce-Calm e f h (acquires r l p lt a) =
      let k = subst (λ q. Calm e.globals e.lock q e.consumer) p h in
      let (before, now) = held-acquire e.lock l a in
      record {
        one = omega (arith, k.one);
        producer_rests = lt;
        consumer_rests = k.consumer_rests;
        reach = k.reach;
      }
  produce-Calm e f h (sleeps r l p t a) =
      let k = subst (λ q. Calm e.globals e.lock q e.consumer) p h in
      let (before, now) = held-wait e.lock l a in
      record {
        one = omega (arith, k.one);
        producer_rests = (k.producer_rests, λ j. ground arith);
        consumer_rests = k.consumer_rests;
        reach = k.reach;
      }
  produce-Calm e f h (acquires_again r l p a) =
      let k = subst (λ q. Calm e.globals e.lock q e.consumer) p h in
      let (before, now) = held-acquire e.lock l a in
      record {
        one = omega (arith, k.one);
        producer_rests = k.producer_rests;
        consumer_rests = k.consumer_rests;
        reach = k.reach;
      }
  produce-Calm e f h (passes r p t) =
      let k = subst (λ q. Calm e.globals e.lock q e.consumer) p h in
      record {
        one = k.one;
        producer_rests = tt;
        consumer_rests = k.consumer_rests;
        reach = later k.reach (may_produce r refl k.producer_rests t);
      }
  produce-Calm e f h (fills_in r random p) =
      let k = subst (λ q. Calm e.globals e.lock q e.consumer) p h in
      record {
        one = k.one;
        producer_rests = tt;
        consumer_rests = k.consumer_rests;
        reach = later k.reach (fill r random refl);
      }
  produce-Calm e f h (puts_in r p) =
      let k = subst (λ q. Calm e.globals e.lock q e.consumer) p h in
      record {
        one = k.one;
        producer_rests = tt;
        consumer_rests = k.consumer_rests;
        reach = later k.reach (put r refl);
      }
  produce-Calm e f h (counts_up r p) =
      let k = subst (λ q. Calm e.globals e.lock q e.consumer) p h in
      record {
        one = k.one;
        producer_rests = tt;
        consumer_rests =
            ConsumerRests-same runs e.globals.produced_until (suc e.globals.produced_until) 0 1
              e.consumer (inr refl) k.consumer_rests;
        reach = later k.reach (publish r refl);
      }
  produce-Calm e f h (releases r l p a) =
      let k = subst (λ q. Calm e.globals e.lock q e.consumer) p h in
      let (before, now) = held-release e.lock l a in
      record {
        one = omega (arith, k.one);
        producer_rests = tt;
        consumer_rests = k.consumer_rests;
        reach = k.reach;
      }
  produce-Calm e f h (wakes r p) =
      let k = subst (λ q. Calm e.globals e.lock q e.consumer) p h in
      record {
        one =
            omega (arith, k.one, nap_consumer_holds-wake_consumer e.consumer, held-wake_up e.lock);
        producer_rests = tt;
        consumer_rests =
            ConsumerRests-wake_consumer runs e.globals.produced_until e.globals.produced_until 1 0
              e.consumer k.consumer_rests;
        reach =
            subst
              (λ q.
                Reach runs size text_size
                  (record { globals = e.globals; producer = tests (suc r); consumer = q }))
              (bare_nap_consumer-wake_consumer e.consumer) k.reach;
      }

  consume-Calm : (e f : Nap) → CalmNap e → NapConsume runs size text_size e f → CalmNap f
  consume-Calm e f h (k_acquires r l p lt a) =
      let k = subst (Calm e.globals e.lock e.producer) p h in
      let (before, now) = held-acquire e.lock l a in
      record {
        one = omega (arith, k.one);
        consumer_rests = lt;
        producer_rests = k.producer_rests;
        reach = k.reach;
      }
  consume-Calm e f h (k_sleeps r l p t a) =
      let k = subst (Calm e.globals e.lock e.producer) p h in
      let (before, now) = held-wait e.lock l a in
      record {
        one = omega (arith, k.one);
        consumer_rests = (k.consumer_rests, λ j. ground arith);
        producer_rests = k.producer_rests;
        reach = k.reach;
      }
  consume-Calm e f h (k_acquires_again r l p a) =
      let k = subst (Calm e.globals e.lock e.producer) p h in
      let (before, now) = held-acquire e.lock l a in
      record {
        one = omega (arith, k.one);
        consumer_rests = k.consumer_rests;
        producer_rests = k.producer_rests;
        reach = k.reach;
      }
  consume-Calm e f h (k_passes r p t) =
      let k = subst (Calm e.globals e.lock e.producer) p h in
      record {
        one = k.one;
        consumer_rests = tt;
        producer_rests = k.producer_rests;
        reach = later k.reach (may_consume r refl k.consumer_rests t);
      }
  consume-Calm e f h (takes_out r p) =
      let k = subst (Calm e.globals e.lock e.producer) p h in
      record {
        one = k.one;
        consumer_rests = tt;
        producer_rests = k.producer_rests;
        reach = later k.reach (take r refl);
      }
  consume-Calm e f h (counts_off r p) =
      let k = subst (Calm e.globals e.lock e.producer) p h in
      record {
        one = k.one;
        consumer_rests = tt;
        producer_rests =
            ProducerRests-same runs (e.globals.consumed_until + size)
              (suc e.globals.consumed_until + size) 0 1 e.producer (inr refl) k.producer_rests;
        reach = later k.reach (release r refl);
      }
  consume-Calm e f h (k_releases r l p a) =
      let k = subst (Calm e.globals e.lock e.producer) p h in
      let (before, now) = held-release e.lock l a in
      record {
        one = omega (arith, k.one);
        consumer_rests = tt;
        producer_rests = k.producer_rests;
        reach = k.reach;
      }
  consume-Calm e f h (k_wakes r p) =
      let k = subst (Calm e.globals e.lock e.producer) p h in
      record {
        one =
            omega (arith, k.one, nap_producer_holds-wake_producer e.producer, held-wake_up e.lock);
        consumer_rests = tt;
        producer_rests =
            ProducerRests-wake_producer runs (e.globals.consumed_until + size)
              (e.globals.consumed_until + size) 1 0 e.producer k.producer_rests;
        reach =
            subst
              (λ q.
                Reach runs size text_size
                  (record { globals = e.globals; producer = q; consumer = looks (suc r) }))
              (bare_nap_producer-wake_producer e.producer) k.reach;
      }

  pub reach-Calm : (e : Nap) → NapReach runs size text_size e → CalmNap e
  reach-Calm e nap = record { one = refl; producer_rests = tt; consumer_rests = tt; reach = start }
  reach-Calm f (produced {e = e} h s) = produce-Calm e f (reach-Calm e h) s
  reach-Calm f (consumed {e = e} h s) = consume-Calm e f (reach-Calm e h) s
