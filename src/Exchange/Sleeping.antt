-- ===== src/Exchange/Sleeping.antt =====
-- sync-examples/procon4.c: under a lock, and a thread that cannot go on sleeps until the other one wakes it.
-- Forgetting the lock gives a run of sync-examples/procon3.c. The lock is that of 275085/lock.c, which has
-- the same code; a wake-up without a broadcast is not modelled.
use cs_453_concurrent_algori.Common.{ℕ, suc, ◌<◌, ◌≡◌, true, false, done}
use cs_453_concurrent_algori.Lock.{
  Lock, free_lock, lock_acquire, lock_release, lock_wait, lock_wake_up,
}
use cs_453_concurrent_algori.Exchange.{
  Data, Globals, zeroed, can_produce, can_consume, fill_produced, put_in_buffer, count_produced,
  take_from_buffer, count_consumed, Producer, tests, fills, puts, counts, Consumer, looks, takes,
  ticks, Exchange,
}

abbrev pub small_buffer : ℕ
small_buffer = 8

-- Where `produce` stands in round `r`: before the lock, with the lock before the test, asleep in
-- `lock_wait`, woken up there, in the round, before the release, and before the wake-up that ends it.
pub data NapProducer : Type 0 where
  p_outside : ℕ → NapProducer
  p_inside : ℕ → NapProducer
  p_asleep : ℕ → NapProducer
  p_awake : ℕ → NapProducer
  p_fill : ℕ → NapProducer
  p_put : ℕ → NapProducer
  p_count : ℕ → NapProducer
  p_leaving : ℕ → NapProducer
  p_waking : ℕ → NapProducer

-- The same of `consume`
pub data NapConsumer : Type 0 where
  k_outside : ℕ → NapConsumer
  k_inside : ℕ → NapConsumer
  k_asleep : ℕ → NapConsumer
  k_awake : ℕ → NapConsumer
  k_take : ℕ → NapConsumer
  k_tick : ℕ → NapConsumer
  k_leaving : ℕ → NapConsumer
  k_waking : ℕ → NapConsumer

abbrev pub wake_producer : NapProducer → NapProducer
wake_producer (p_asleep r) = p_awake r
wake_producer p = p

abbrev pub wake_consumer : NapConsumer → NapConsumer
wake_consumer (k_asleep r) = k_awake r
wake_consumer c = c

pub record Nap : Type 0 where
  pub globals : Globals
  pub lock : Lock
  pub producer : NapProducer
  pub consumer : NapConsumer

module _ (runs size text_size : ℕ) where
  -- `produce`
  pub data NapProduce (e : Nap) : Nap → Type 0 where
    acquires :
        (r : ℕ) (l : Lock)
        → e.producer ≡ p_outside r
        → r < runs
        → lock_acquire e.lock ≡ done l
        → NapProduce e (record e { lock = l; producer = p_inside r })
    sleeps :
        (r : ℕ) (l : Lock)
        → e.producer ≡ p_inside r
        → can_produce size r e.globals ≡ false
        → lock_wait e.lock ≡ done l
        → NapProduce e (record e { lock = l; producer = p_asleep r })
    acquires_again :
        (r : ℕ) (l : Lock)
        → e.producer ≡ p_awake r
        → lock_acquire e.lock ≡ done l
        → NapProduce e (record e { lock = l; producer = p_inside r })
    passes :
        (r : ℕ)
        → e.producer ≡ p_inside r
        → can_produce size r e.globals ≡ true
        → NapProduce e (record e { producer = p_fill r })
    fills_in :
        (r : ℕ) (random : Data)
        → e.producer ≡ p_fill r
        → NapProduce e
            (record e { globals = fill_produced text_size random r e.globals; producer = p_put r })
    puts_in :
        (r : ℕ)
        → e.producer ≡ p_put r
        → NapProduce e (record e { globals = put_in_buffer size r e.globals; producer = p_count r })
    counts_up :
        (r : ℕ)
        → e.producer ≡ p_count r
        → NapProduce e (record e { globals = count_produced e.globals; producer = p_leaving r })
    releases :
        (r : ℕ) (l : Lock)
        → e.producer ≡ p_leaving r
        → lock_release e.lock ≡ done l
        → NapProduce e (record e { lock = l; producer = p_waking r })
    wakes :
        (r : ℕ)
        → e.producer ≡ p_waking r
        → NapProduce e (record e {
          lock = lock_wake_up e.lock;
          producer = p_outside (suc r);
          consumer = wake_consumer e.consumer;
        })

  -- `consume`
  pub data NapConsume (e : Nap) : Nap → Type 0 where
    k_acquires :
        (r : ℕ) (l : Lock)
        → e.consumer ≡ k_outside r
        → r < runs
        → lock_acquire e.lock ≡ done l
        → NapConsume e (record e { lock = l; consumer = k_inside r })
    k_sleeps :
        (r : ℕ) (l : Lock)
        → e.consumer ≡ k_inside r
        → can_consume r e.globals ≡ false
        → lock_wait e.lock ≡ done l
        → NapConsume e (record e { lock = l; consumer = k_asleep r })
    k_acquires_again :
        (r : ℕ) (l : Lock)
        → e.consumer ≡ k_awake r
        → lock_acquire e.lock ≡ done l
        → NapConsume e (record e { lock = l; consumer = k_inside r })
    k_passes :
        (r : ℕ)
        → e.consumer ≡ k_inside r
        → can_consume r e.globals ≡ true
        → NapConsume e (record e { consumer = k_take r })
    takes_out :
        (r : ℕ)
        → e.consumer ≡ k_take r
        → NapConsume e
            (record e { globals = take_from_buffer size r e.globals; consumer = k_tick r })
    counts_off :
        (r : ℕ)
        → e.consumer ≡ k_tick r
        → NapConsume e (record e { globals = count_consumed e.globals; consumer = k_leaving r })
    k_releases :
        (r : ℕ) (l : Lock)
        → e.consumer ≡ k_leaving r
        → lock_release e.lock ≡ done l
        → NapConsume e (record e { lock = l; consumer = k_waking r })
    k_wakes :
        (r : ℕ)
        → e.consumer ≡ k_waking r
        → NapConsume e (record e {
          lock = lock_wake_up e.lock;
          consumer = k_outside (suc r);
          producer = wake_producer e.producer;
        })

abbrev pub nap_start : Nap
nap_start = record {
  globals = zeroed;
  lock = free_lock;
  producer = p_outside 0;
  consumer = k_outside 0;
}

module _ (runs size text_size : ℕ) where
  pub data NapReach : Nap → Type 0 where
    nap : NapReach nap_start
    produced : {e f : Nap} → NapReach e → NapProduce runs size text_size e f → NapReach f
    consumed : {e f : Nap} → NapReach e → NapConsume runs size text_size e f → NapReach f

-- The threads without the lock
abbrev pub bare_nap_producer : NapProducer → Producer
bare_nap_producer (p_outside r) = tests r
bare_nap_producer (p_inside r) = tests r
bare_nap_producer (p_asleep r) = tests r
bare_nap_producer (p_awake r) = tests r
bare_nap_producer (p_fill r) = fills r
bare_nap_producer (p_put r) = puts r
bare_nap_producer (p_count r) = counts r
bare_nap_producer (p_leaving r) = tests (suc r)
bare_nap_producer (p_waking r) = tests (suc r)

abbrev pub bare_nap_consumer : NapConsumer → Consumer
bare_nap_consumer (k_outside r) = looks r
bare_nap_consumer (k_inside r) = looks r
bare_nap_consumer (k_asleep r) = looks r
bare_nap_consumer (k_awake r) = looks r
bare_nap_consumer (k_take r) = takes r
bare_nap_consumer (k_tick r) = ticks r
bare_nap_consumer (k_leaving r) = looks (suc r)
bare_nap_consumer (k_waking r) = looks (suc r)

abbrev pub bare_nap : Nap → Exchange
bare_nap e = record {
  globals = e.globals;
  producer = bare_nap_producer e.producer;
  consumer = bare_nap_consumer e.consumer;
}
