-- ===== src/Exchange/Resting.antt =====
-- sync-examples/procon4.c: what is known of a thread that waits or sleeps.
use cs_453_concurrent_algori.Common.{ℕ, ◌<◌, ◌≤◌, ◌≡◌, ◌∙◌, ◌⊎◌, inl, inr, refl, sym, arith, done}
use cs_453_concurrent_algori.Lock.{Lock, lock_wait, lock_wake_up}
use cs_453_concurrent_algori.Exchange.Excluding.{held}
use cs_453_concurrent_algori.Exchange.Sleeping.{
  NapProducer, p_outside, p_inside, p_asleep, p_awake, p_fill, p_put, p_count, p_leaving, p_waking,
  NapConsumer, k_outside, k_inside, k_asleep, k_awake, k_take, k_tick, k_leaving, k_waking,
  wake_producer, wake_consumer, bare_nap_producer, bare_nap_consumer,
}

pub held-wait : (l l' : Lock) → lock_wait l ≡ done l' → (held l ≡ 1) × (held l' ≡ 0)
unfolding lock_wait
held-wait l l' e = ground arith

pub held-wake_up : (l : Lock) → held (lock_wake_up l) ≡ held l
unfolding lock_wake_up
held-wake_up l = refl

-- A thread has the lock from the test of its round to the release.
abbrev pub nap_producer_holds : NapProducer → ℕ
nap_producer_holds (p_outside r) = 0
nap_producer_holds (p_asleep r) = 0
nap_producer_holds (p_awake r) = 0
nap_producer_holds (p_waking r) = 0
nap_producer_holds _ = 1

abbrev pub nap_consumer_holds : NapConsumer → ℕ
nap_consumer_holds (k_outside r) = 0
nap_consumer_holds (k_asleep r) = 0
nap_consumer_holds (k_awake r) = 0
nap_consumer_holds (k_waking r) = 0
nap_consumer_holds _ = 1

-- A thread that has counted will wake the other one.
abbrev pub producer_signals : NapProducer → ℕ
producer_signals (p_leaving r) = 1
producer_signals (p_waking r) = 1
producer_signals _ = 0

abbrev pub consumer_signals : NapConsumer → ℕ
consumer_signals (k_leaving r) = 1
consumer_signals (k_waking r) = 1
consumer_signals _ = 0

-- A producer waits for a round that is to come. If it sleeps although there is room, it will be woken.
abbrev pub ProducerRests : ℕ → ℕ → ℕ → NapProducer → Type 0
ProducerRests runs limit signals (p_inside r) = r < runs
ProducerRests runs limit signals (p_asleep r) = (r < runs) × (r < limit → signals ≡ 1)
ProducerRests runs limit signals (p_awake r) = r < runs
ProducerRests runs limit signals _ = Unit

abbrev pub ConsumerRests : ℕ → ℕ → ℕ → NapConsumer → Type 0
ConsumerRests runs limit signals (k_inside r) = r < runs
ConsumerRests runs limit signals (k_asleep r) = (r < runs) × (r < limit → signals ≡ 1)
ConsumerRests runs limit signals (k_awake r) = r < runs
ConsumerRests runs limit signals _ = Unit

rests_limit :
    (r m m' s s' : ℕ) → ((m' ≤ m) × (s ≡ s')) ⊎ (s' ≡ 1) → (r < m → s ≡ 1) → r < m' → s' ≡ 1
rests_limit r m m' s s' (inl (le, e)) k j = sym e ∙ k (omega arith)
rests_limit r m m' s s' (inr e) k j = e

pub ProducerRests-same :
    (runs limit limit' s s' : ℕ) (p : NapProducer)
    → ((limit' ≤ limit) × (s ≡ s')) ⊎ (s' ≡ 1)
    → ProducerRests runs limit s p
    → ProducerRests runs limit' s' p
ProducerRests-same runs m m' s s' (p_inside r) h k = k
ProducerRests-same runs m m' s s' (p_awake r) h k = k
ProducerRests-same runs m m' s s' (p_asleep r) h (lt, k) = (lt, λ j. rests_limit r m m' s s' h k j)
ProducerRests-same runs m m' s s' (p_outside r) h k = tt
ProducerRests-same runs m m' s s' (p_fill r) h k = tt
ProducerRests-same runs m m' s s' (p_put r) h k = tt
ProducerRests-same runs m m' s s' (p_count r) h k = tt
ProducerRests-same runs m m' s s' (p_leaving r) h k = tt
ProducerRests-same runs m m' s s' (p_waking r) h k = tt

-- The broadcast ends the sleep.
pub ProducerRests-wake_producer :
    (runs limit limit' s s' : ℕ) (p : NapProducer)
    → ProducerRests runs limit s p
    → ProducerRests runs limit' s' (wake_producer p)
ProducerRests-wake_producer runs m m' s s' (p_inside r) k = k
ProducerRests-wake_producer runs m m' s s' (p_awake r) k = k
ProducerRests-wake_producer runs m m' s s' (p_asleep r) (lt, k) = lt
ProducerRests-wake_producer runs m m' s s' (p_outside r) k = tt
ProducerRests-wake_producer runs m m' s s' (p_fill r) k = tt
ProducerRests-wake_producer runs m m' s s' (p_put r) k = tt
ProducerRests-wake_producer runs m m' s s' (p_count r) k = tt
ProducerRests-wake_producer runs m m' s s' (p_leaving r) k = tt
ProducerRests-wake_producer runs m m' s s' (p_waking r) k = tt

pub bare_nap_producer-wake_producer :
    (p : NapProducer) → bare_nap_producer p ≡ bare_nap_producer (wake_producer p)
bare_nap_producer-wake_producer (p_inside r) = refl
bare_nap_producer-wake_producer (p_awake r) = refl
bare_nap_producer-wake_producer (p_asleep r) = refl
bare_nap_producer-wake_producer (p_outside r) = refl
bare_nap_producer-wake_producer (p_fill r) = refl
bare_nap_producer-wake_producer (p_put r) = refl
bare_nap_producer-wake_producer (p_count r) = refl
bare_nap_producer-wake_producer (p_leaving r) = refl
bare_nap_producer-wake_producer (p_waking r) = refl

pub nap_producer_holds-wake_producer :
    (p : NapProducer) → nap_producer_holds (wake_producer p) ≡ nap_producer_holds p
nap_producer_holds-wake_producer (p_inside r) = refl
nap_producer_holds-wake_producer (p_awake r) = refl
nap_producer_holds-wake_producer (p_asleep r) = refl
nap_producer_holds-wake_producer (p_outside r) = refl
nap_producer_holds-wake_producer (p_fill r) = refl
nap_producer_holds-wake_producer (p_put r) = refl
nap_producer_holds-wake_producer (p_count r) = refl
nap_producer_holds-wake_producer (p_leaving r) = refl
nap_producer_holds-wake_producer (p_waking r) = refl

pub ConsumerRests-same :
    (runs limit limit' s s' : ℕ) (p : NapConsumer)
    → ((limit' ≤ limit) × (s ≡ s')) ⊎ (s' ≡ 1)
    → ConsumerRests runs limit s p
    → ConsumerRests runs limit' s' p
ConsumerRests-same runs m m' s s' (k_inside r) h k = k
ConsumerRests-same runs m m' s s' (k_awake r) h k = k
ConsumerRests-same runs m m' s s' (k_asleep r) h (lt, k) = (lt, λ j. rests_limit r m m' s s' h k j)
ConsumerRests-same runs m m' s s' (k_outside r) h k = tt
ConsumerRests-same runs m m' s s' (k_take r) h k = tt
ConsumerRests-same runs m m' s s' (k_tick r) h k = tt
ConsumerRests-same runs m m' s s' (k_leaving r) h k = tt
ConsumerRests-same runs m m' s s' (k_waking r) h k = tt

-- The broadcast ends the sleep.
pub ConsumerRests-wake_consumer :
    (runs limit limit' s s' : ℕ) (p : NapConsumer)
    → ConsumerRests runs limit s p
    → ConsumerRests runs limit' s' (wake_consumer p)
ConsumerRests-wake_consumer runs m m' s s' (k_inside r) k = k
ConsumerRests-wake_consumer runs m m' s s' (k_awake r) k = k
ConsumerRests-wake_consumer runs m m' s s' (k_asleep r) (lt, k) = lt
ConsumerRests-wake_consumer runs m m' s s' (k_outside r) k = tt
ConsumerRests-wake_consumer runs m m' s s' (k_take r) k = tt
ConsumerRests-wake_consumer runs m m' s s' (k_tick r) k = tt
ConsumerRests-wake_consumer runs m m' s s' (k_leaving r) k = tt
ConsumerRests-wake_consumer runs m m' s s' (k_waking r) k = tt

pub bare_nap_consumer-wake_consumer :
    (p : NapConsumer) → bare_nap_consumer p ≡ bare_nap_consumer (wake_consumer p)
bare_nap_consumer-wake_consumer (k_inside r) = refl
bare_nap_consumer-wake_consumer (k_awake r) = refl
bare_nap_consumer-wake_consumer (k_asleep r) = refl
bare_nap_consumer-wake_consumer (k_outside r) = refl
bare_nap_consumer-wake_consumer (k_take r) = refl
bare_nap_consumer-wake_consumer (k_tick r) = refl
bare_nap_consumer-wake_consumer (k_leaving r) = refl
bare_nap_consumer-wake_consumer (k_waking r) = refl

pub nap_consumer_holds-wake_consumer :
    (p : NapConsumer) → nap_consumer_holds (wake_consumer p) ≡ nap_consumer_holds p
nap_consumer_holds-wake_consumer (k_inside r) = refl
nap_consumer_holds-wake_consumer (k_awake r) = refl
nap_consumer_holds-wake_consumer (k_asleep r) = refl
nap_consumer_holds-wake_consumer (k_outside r) = refl
nap_consumer_holds-wake_consumer (k_take r) = refl
nap_consumer_holds-wake_consumer (k_tick r) = refl
nap_consumer_holds-wake_consumer (k_leaving r) = refl
nap_consumer_holds-wake_consumer (k_waking r) = refl
