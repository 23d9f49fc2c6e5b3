-- ===== src/Exchange/Spinning.antt =====
-- sync-examples/procon2.c: the counters are plain numbers, under a lock that both threads try over and
-- over. Forgetting the lock gives a run of sync-examples/procon3.c. The lock is that of 275085/lock.c,
-- which has the same code.
use cs_453_concurrent_algori.Common.{ℕ, suc, ◌<◌, ◌≡◌, true, false, done}
use cs_453_concurrent_algori.Lock.{Lock, free_lock, lock_acquire, lock_release}
use cs_453_concurrent_algori.Exchange.{
  Data, Globals, zeroed, can_produce, can_consume, fill_produced, put_in_buffer, count_produced,
  take_from_buffer, count_consumed, Producer, tests, fills, puts, counts, Consumer, looks, takes,
  ticks, Exchange,
}

-- Where `produce` stands in round `r`: before the lock, with the lock and before the test, behind a test
-- that failed, in the round, and before the release that ends it.
pub data SpinProducer : Type 0 where
  outside : ℕ → SpinProducer
  inside : ℕ → SpinProducer
  refused : ℕ → SpinProducer
  in_fill : ℕ → SpinProducer
  in_put : ℕ → SpinProducer
  in_count : ℕ → SpinProducer
  leaving : ℕ → SpinProducer

-- The same of `consume`
pub data SpinConsumer : Type 0 where
  c_outside : ℕ → SpinConsumer
  c_inside : ℕ → SpinConsumer
  c_refused : ℕ → SpinConsumer
  in_take : ℕ → SpinConsumer
  in_tick : ℕ → SpinConsumer
  c_leaving : ℕ → SpinConsumer

pub record Spin : Type 0 where
  pub globals : Globals
  pub lock : Lock
  pub producer : SpinProducer
  pub consumer : SpinConsumer

module _ (runs size text_size : ℕ) where
  -- `produce`
  pub data Produce (e : Spin) : Spin → Type 0 where
    acquires :
        (r : ℕ) (l : Lock)
        → e.producer ≡ outside r
        → r < runs
        → lock_acquire e.lock ≡ done l
        → Produce e (record e { lock = l; producer = inside r })
    fails :
        (r : ℕ)
        → e.producer ≡ inside r
        → can_produce size r e.globals ≡ false
        → Produce e (record e { producer = refused r })
    retries :
        (r : ℕ) (l : Lock)
        → e.producer ≡ refused r
        → lock_release e.lock ≡ done l
        → Produce e (record e { lock = l; producer = outside r })
    passes :
        (r : ℕ)
        → e.producer ≡ inside r
        → can_produce size r e.globals ≡ true
        → Produce e (record e { producer = in_fill r })
    fills_in :
        (r : ℕ) (random : Data)
        → e.producer ≡ in_fill r
        → Produce e
            (record e { globals = fill_produced text_size random r e.globals; producer = in_put r })
    puts_in :
        (r : ℕ)
        → e.producer ≡ in_put r
        → Produce e (record e { globals = put_in_buffer size r e.globals; producer = in_count r })
    counts_up :
        (r : ℕ)
        → e.producer ≡ in_count r
        → Produce e (record e { globals = count_produced e.globals; producer = leaving r })
    releases :
        (r : ℕ) (l : Lock)
        → e.producer ≡ leaving r
        → lock_release e.lock ≡ done l
        → Produce e (record e { lock = l; producer = outside (suc r) })

  -- `consume`
  pub data Consume (e : Spin) : Spin → Type 0 where
    c_acquires :
        (r : ℕ) (l : Lock)
        → e.consumer ≡ c_outside r
        → r < runs
        → lock_acquire e.lock ≡ done l
        → Consume e (record e { lock = l; consumer = c_inside r })
    c_fails :
        (r : ℕ)
        → e.consumer ≡ c_inside r
        → can_consume r e.globals ≡ false
        → Consume e (record e { consumer = c_refused r })
    c_retries :
        (r : ℕ) (l : Lock)
        → e.consumer ≡ c_refused r
        → lock_release e.lock ≡ done l
        → Consume e (record e { lock = l; consumer = c_outside r })
    c_passes :
        (r : ℕ)
        → e.consumer ≡ c_inside r
        → can_consume r e.globals ≡ true
        → Consume e (record e { consumer = in_take r })
    takes_out :
        (r : ℕ)
        → e.consumer ≡ in_take r
        → Consume e (record e { globals = take_from_buffer size r e.globals; consumer = in_tick r })
    counts_off :
        (r : ℕ)
        → e.consumer ≡ in_tick r
        → Consume e (record e { globals = count_consumed e.globals; consumer = c_leaving r })
    c_releases :
        (r : ℕ) (l : Lock)
        → e.consumer ≡ c_leaving r
        → lock_release e.lock ≡ done l
        → Consume e (record e { lock = l; consumer = c_outside (suc r) })

abbrev pub spin_start : Spin
spin_start = record {
  globals = zeroed;
  lock = free_lock;
  producer = outside 0;
  consumer = c_outside 0;
}

module _ (runs size text_size : ℕ) where
  pub data SpinReach : Spin → Type 0 where
    spin : SpinReach spin_start
    produced : {e f : Spin} → SpinReach e → Produce runs size text_size e f → SpinReach f
    consumed : {e f : Spin} → SpinReach e → Consume runs size text_size e f → SpinReach f

-- The threads without the lock
abbrev pub bare_producer : SpinProducer → Producer
bare_producer (outside r) = tests r
bare_producer (inside r) = tests r
bare_producer (refused r) = tests r
bare_producer (in_fill r) = fills r
bare_producer (in_put r) = puts r
bare_producer (in_count r) = counts r
bare_producer (leaving r) = tests (suc r)

abbrev pub bare_consumer : SpinConsumer → Consumer
bare_consumer (c_outside r) = looks r
bare_consumer (c_inside r) = looks r
bare_consumer (c_refused r) = looks r
bare_consumer (in_take r) = takes r
bare_consumer (in_tick r) = ticks r
bare_consumer (c_leaving r) = looks (suc r)

abbrev pub bare : Spin → Exchange
bare e = record {
  globals = e.globals;
  producer = bare_producer e.producer;
  consumer = bare_consumer e.consumer;
}
