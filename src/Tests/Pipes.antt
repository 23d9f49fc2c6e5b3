-- ===== src/Tests/Pipes.antt =====
-- The theorems on the producer and the consumer, with one round, a buffer of one cell and texts of one
-- character.
use cs_453_concurrent_algori.Common.{ℕ, ◌+◌, ◌≡◌, ◌≤◌, ◌<◌, ◌⊎◌, refl, arith, true, false}
use cs_453_concurrent_algori.Lock.{Lock, lock_acquire, lock_wait}
use cs_453_concurrent_algori.Exchange.{
  Data, Globals, zeroed, fill_produced, put_in_buffer, count_produced, take_from_buffer,
  count_consumed, tests, looks, Exchange, Reach, start, later, may_produce, fill, put, publish,
  may_consume, take, release, looks_correct,
}
use cs_453_concurrent_algori.Exchange.Correct.{exchange-Correct}
use cs_453_concurrent_algori.Exchange.Spinning.{
  Spin, SpinReach, spin, produced, c_outside, inside, bare, acquires,
}
use cs_453_concurrent_algori.Exchange.Excluding.{
  spinning_refines, producer_holds, consumer_holds, held,
}
use cs_453_concurrent_algori.Exchange.Sleeping.{Nap, NapReach, nap, k_asleep, p_outside, bare_nap}
use cs_453_concurrent_algori.Exchange.Resting.{nap_producer_holds, nap_consumer_holds}
use cs_453_concurrent_algori.Exchange.Progress.{never_stuck, Through, Moves}
use cs_453_concurrent_algori.Exchange.Sleeping

abbrev sevens : Data
sevens i = 7

abbrev passed_on : Globals
passed_on =
    count_consumed
      (take_from_buffer 1 0 (count_produced (put_in_buffer 1 0 (fill_produced 1 sevens 0 zeroed))))

abbrev delivered : Exchange
delivered = record { globals = passed_on; producer = tests 1; consumer = looks 1 }

delivered-Reach : Reach 1 1 1 delivered
delivered-Reach =
    later
      (later
        (later
          (later
            (later
              (later (later start (may_produce 0 refl (omega arith) refl)) (fill 0 sevens refl))
              (put 0 refl))
            (publish 0 refl))
          (may_consume 0 refl (omega arith) refl))
        (take 0 refl))
      (release 0 refl)

exchange-Correct_example :
    (1 ≤ 1)
    × (1 ≤ 1 + 1)
    × ((k : ℕ) → k < 1 → delivered.globals.consumed k ≡ delivered.globals.produced k)
    × (delivered.consumer ≡ looks 1 → looks_correct 1 1 0 delivered.globals ≡ true)
exchange-Correct_example = exchange-Correct 1 1 1 delivered delivered-Reach

abbrev taken_lock : Lock
taken_lock = record { mutex = true; all_tx_left_batcher = 0 }

abbrev producer_in : Spin
producer_in = record {
  globals = zeroed;
  lock = taken_lock;
  producer = inside 0;
  consumer = c_outside 0;
}

producer_in-SpinReach : SpinReach 1 1 1 producer_in
unfolding lock_acquire
producer_in-SpinReach = produced spin (acquires 0 taken_lock refl (omega arith) refl)

spinning_refines_example :
    Reach 1 1 1 (bare producer_in)
    × (producer_holds (inside 0) + consumer_holds (c_outside 0) ≡ held taken_lock)
    × (held taken_lock ≤ 1)
spinning_refines_example = spinning_refines 1 1 1 producer_in producer_in-SpinReach

-- The consumer came first, found nothing and sleeps.
abbrev one_waits : Lock
one_waits = record { mutex = false; all_tx_left_batcher = 1 }

abbrev consumer_sleeps : Nap
consumer_sleeps = record {
  globals = zeroed;
  lock = one_waits;
  producer = p_outside 0;
  consumer = k_asleep 0;
}

consumer_sleeps-NapReach : NapReach 1 1 1 consumer_sleeps
unfolding lock_acquire lock_wait
consumer_sleeps-NapReach =
    Sleeping.consumed
      (Sleeping.consumed nap (Sleeping.k_acquires 0 taken_lock refl (omega arith) refl))
      (Sleeping.k_sleeps 0 one_waits refl refl refl)

never_stuck_example :
    Reach 1 1 1 (bare_nap consumer_sleeps)
    × (nap_producer_holds (p_outside 0) + nap_consumer_holds (k_asleep 0) ≡ held one_waits)
    × (Through 1 1 1 consumer_sleeps ⊎ Moves 1 1 1 consumer_sleeps)
never_stuck_example = never_stuck 1 1 1 consumer_sleeps (omega arith) consumer_sleeps-NapReach
