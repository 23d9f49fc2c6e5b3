-- ===== src/Exchange/Progress.antt =====
-- sync-examples/procon4.c: no state is stuck, as long as a thread is not through.
use cs_453_concurrent_algori.Common.{
  ℕ, ◌+◌, ◌<◌, ◌≤◌, ◌≡◌, ◌⊎◌, inl, inr, refl, subst, true, false, arith, done, Bool-cases, dec_lt,
}
use cs_453_concurrent_algori.Lock.{Lock, lock_acquire, lock_release, lock_wait}
use cs_453_concurrent_algori.Exchange.{Globals, can_produce, can_consume, Reach}
use cs_453_concurrent_algori.Exchange.Correct.{Reach-Invariant}
use cs_453_concurrent_algori.Exchange.Excluding.{held}
use cs_453_concurrent_algori.Exchange.Sleeping.{
  NapProducer, p_outside, p_inside, p_asleep, p_awake, p_fill, p_put, p_count, p_leaving, p_waking,
  NapConsumer, k_outside, k_inside, k_asleep, k_awake, k_take, k_tick, k_leaving, k_waking, Nap,
  NapProduce, acquires, sleeps, acquires_again, passes, fills_in, puts_in, counts_up, releases,
  wakes, NapConsume, k_acquires, k_sleeps, k_acquires_again, k_passes, takes_out, counts_off,
  k_releases, k_wakes, NapReach, bare_nap,
}
use cs_453_concurrent_algori.Exchange.Resting.{nap_producer_holds, nap_consumer_holds}
use cs_453_concurrent_algori.Exchange.Calm.{Calm, CalmNap, reach-Calm}

can_acquire : (l : Lock) → held l ≡ 0 → (l' : Lock) × (lock_acquire l ≡ done l')
unfolding lock_acquire
can_acquire l h = (record l { mutex = true }, ground arith)

can_release : (l : Lock) → held l ≡ 1 → (l' : Lock) × (lock_release l ≡ done l')
unfolding lock_release
can_release l h = (record l { mutex = false }, ground arith)

can_wait : (l : Lock) → held l ≡ 1 → (l' : Lock) × (lock_wait l ≡ done l')
unfolding lock_wait
can_wait l h =
    (record { mutex = false; all_tx_left_batcher = l.all_tx_left_batcher + 1 }, ground arith)

no_signal : (r limit : ℕ) → (r < limit → ◌≡◌ {A = ℕ} 0 1) → limit ≤ r
no_signal r limit h = elim (dec_lt r limit) [
  | yes lt ↦ absurd (ground (arith, h lt))
  | no ge ↦ omega arith
]

module _ (runs size text_size : ℕ) where
  -- A thread can make a step.
  abbrev pub Moves : Nap → Type 0
  Moves e = (f : Nap) × (NapProduce runs size text_size e f ⊎ NapConsume runs size text_size e f)

  -- Both threads have returned.
  abbrev pub Through : Nap → Type 0
  Through e =
      (i : ℕ) × (j : ℕ) × (e.producer ≡ p_outside i)
      × (runs ≤ i)
      × (e.consumer ≡ k_outside j)
      × (runs ≤ j)

  -- The thread that has the lock can go on.
  producer-Moves :
      (e : Nap) (p : NapProducer)
      → e.producer ≡ p
      → nap_producer_holds p ≡ 1
      → held e.lock ≡ 1
      → Moves e
  producer-Moves e (p_inside r) q h i = elim (Bool-cases (can_produce size r e.globals)) [
    | inl t ↦ (_, inl (passes r q t))
    | inr t ↦ let (l, a) = can_wait e.lock i in (_, inl (sleeps r l q t a))
  ]
  producer-Moves e (p_fill r) q h i = (_, inl (fills_in r (λ j. 0) q))
  producer-Moves e (p_put r) q h i = (_, inl (puts_in r q))
  producer-Moves e (p_count r) q h i = (_, inl (counts_up r q))
  producer-Moves e (p_leaving r) q h i =
      let (l, a) = can_release e.lock i in (_, inl (releases r l q a))
  producer-Moves e (p_outside r) q h i = absurd (ground arith)
  producer-Moves e (p_asleep r) q h i = absurd (ground arith)
  producer-Moves e (p_awake r) q h i = absurd (ground arith)
  producer-Moves e (p_waking r) q h i = absurd (ground arith)

  consumer-Moves :
      (e : Nap) (c : NapConsumer)
      → e.consumer ≡ c
      → nap_consumer_holds c ≡ 1
      → held e.lock ≡ 1
      → Moves e
  consumer-Moves e (k_inside r) q h i = elim (Bool-cases (can_consume r e.globals)) [
    | inl t ↦ (_, inr (k_passes r q t))
    | inr t ↦ let (l, a) = can_wait e.lock i in (_, inr (k_sleeps r l q t a))
  ]
  consumer-Moves e (k_take r) q h i = (_, inr (takes_out r q))
  consumer-Moves e (k_tick r) q h i = (_, inr (counts_off r q))
  consumer-Moves e (k_leaving r) q h i =
      let (l, a) = can_release e.lock i in (_, inr (k_releases r l q a))
  consumer-Moves e (k_outside r) q h i = absurd (ground arith)
  consumer-Moves e (k_asleep r) q h i = absurd (ground arith)
  consumer-Moves e (k_awake r) q h i = absurd (ground arith)
  consumer-Moves e (k_waking r) q h i = absurd (ground arith)

  -- A thread that cannot go on although the mutex is free: it sleeps, or it is through.
  abbrev RestsOf : {A : Type 0} → (ℕ → A) → (ℕ → A) → A → Type 0
  RestsOf asleep outside a = ((r : ℕ) × (a ≡ asleep r)) ⊎ ((r : ℕ) × (a ≡ outside r) × (runs ≤ r))

  free_producer :
      (e : Nap) (p : NapProducer)
      → e.producer ≡ p
      → nap_producer_holds p ≡ 0
      → held e.lock ≡ 0
      → Moves e ⊎ RestsOf p_asleep p_outside e.producer
  free_producer e (p_outside r) q h i = elim (dec_lt r runs) [
    | yes lt ↦ let (l, a) = can_acquire e.lock i in inl (_, inl (acquires r l q lt a))
    | no ge ↦ inr (inr (r, q, omega arith))
  ]
  free_producer e (p_asleep r) q h i = inr (inl (r, q))
  free_producer e (p_awake r) q h i =
      let (l, a) = can_acquire e.lock i in inl (_, inl (acquires_again r l q a))
  free_producer e (p_waking r) q h i = inl (_, inl (wakes r q))
  free_producer e (p_inside r) q h i = absurd (ground arith)
  free_producer e (p_fill r) q h i = absurd (ground arith)
  free_producer e (p_put r) q h i = absurd (ground arith)
  free_producer e (p_count r) q h i = absurd (ground arith)
  free_producer e (p_leaving r) q h i = absurd (ground arith)

  free_consumer :
      (e : Nap) (c : NapConsumer)
      → e.consumer ≡ c
      → nap_consumer_holds c ≡ 0
      → held e.lock ≡ 0
      → Moves e ⊎ RestsOf k_asleep k_outside e.consumer
  free_consumer e (k_outside r) q h i = elim (dec_lt r runs) [
    | yes lt ↦ let (l, a) = can_acquire e.lock i in inl (_, inr (k_acquires r l q lt a))
    | no ge ↦ inr (inr (r, q, omega arith))
  ]
  free_consumer e (k_asleep r) q h i = inr (inl (r, q))
  free_consumer e (k_awake r) q h i =
      let (l, a) = can_acquire e.lock i in inl (_, inr (k_acquires_again r l q a))
  free_consumer e (k_waking r) q h i = inl (_, inr (k_wakes r q))
  free_consumer e (k_inside r) q h i = absurd (ground arith)
  free_consumer e (k_take r) q h i = absurd (ground arith)
  free_consumer e (k_tick r) q h i = absurd (ground arith)
  free_consumer e (k_leaving r) q h i = absurd (ground arith)

  -- Not both threads sleep, and none sleeps once the other one is through.
  not_asleep :
      (g : Globals) (l : Lock) (p : NapProducer) (c : NapConsumer)
      → 0 < size
      → Calm runs size text_size g l p c
      → RestsOf p_asleep p_outside p
      → RestsOf k_asleep k_outside c
      → (i : ℕ) × (j : ℕ) × (p ≡ p_outside i) × (runs ≤ i) × (c ≡ k_outside j) × (runs ≤ j)
  not_asleep g l p c some_room k (inr (i, x, h)) (inr (j, y, h')) = (i, j, x, h, y, h')
  not_asleep g l p c some_room k (inl (i, x)) (inl (j, y)) =
      let k2 : Calm runs size text_size g l (p_asleep i) (k_asleep j) =
        subst (λ q. Calm runs size text_size g l q (k_asleep j)) x
          (subst (Calm runs size text_size g l p) y k) in
      let inv = Reach-Invariant runs size text_size _ k2.reach in
      let (lt, rests) = k2.producer_rests in
      let (lt', rests') = k2.consumer_rests in
      let limit = no_signal i (g.consumed_until + size) rests in
      let limit' = no_signal j g.produced_until rests' in
      absurd (omega (arith, inv.made, inv.taken))
  not_asleep g l p c some_room k (inl (i, x)) (inr (j, y, h)) =
      let k2 : Calm runs size text_size g l (p_asleep i) (k_outside j) =
        subst (λ q. Calm runs size text_size g l q (k_outside j)) x
          (subst (Calm runs size text_size g l p) y k) in
      let inv = Reach-Invariant runs size text_size _ k2.reach in
      let (lt, rests) = k2.producer_rests in
      let limit = no_signal i (g.consumed_until + size) rests in
      absurd (omega (arith, inv.made, inv.taken))
  not_asleep g l p c some_room k (inr (i, x, h)) (inl (j, y)) =
      let k2 : Calm runs size text_size g l (p_outside i) (k_asleep j) =
        subst (λ q. Calm runs size text_size g l q (k_asleep j)) x
          (subst (Calm runs size text_size g l p) y k) in
      let inv = Reach-Invariant runs size text_size _ k2.reach in
      let (lt, rests) = k2.consumer_rests in
      let limit = no_signal j g.produced_until rests in absurd (omega (arith, inv.made, inv.taken))

  -- Every state that the two threads reach is, without the lock, one that those with the atomic counters
  -- reach, and at most one thread has the lock. If the buffer has a cell and not both threads have
  -- returned, one of them can make a step: no wake-up is lost, and the two never wait for each other.
  pub never_stuck :
      (e : Nap)
      → 0 < size
      → NapReach runs size text_size e
      → Reach runs size text_size (bare_nap e)
        × (nap_producer_holds e.producer + nap_consumer_holds e.consumer ≡ held e.lock)
        × (Through e ⊎ Moves e)
  never_stuck e some_room h =
      let k = reach-Calm runs size text_size e h in (k.reach, k.one, goes_on k)
    where
      at_rest :
          CalmNap runs size text_size e
          → Moves e ⊎ RestsOf p_asleep p_outside e.producer
          → Moves e ⊎ RestsOf k_asleep k_outside e.consumer
          → Through e ⊎ Moves e
      at_rest k (inl m) y = inr m
      at_rest k (inr x) (inl m) = inr m
      at_rest k (inr x) (inr y) =
          inl (not_asleep e.globals e.lock e.producer e.consumer some_room k x y)

      goes_on : CalmNap runs size text_size e → Through e ⊎ Moves e
      goes_on k = elim (dec_lt 0 (held e.lock)) [
        | yes busy ↦
            let is_one : held e.lock ≡ 1 = ground arith in
            elim (dec_lt 0 (nap_producer_holds e.producer)) [
              | yes mine ↦ inr (producer-Moves e e.producer refl (omega (arith, k.one)) is_one)
              | no other ↦ inr (consumer-Moves e e.consumer refl (omega (arith, k.one)) is_one)
            ]
        | no free ↦
            at_rest k (free_producer e e.producer refl (omega (arith, k.one)) (omega arith))
              (free_consumer e e.consumer refl (omega (arith, k.one)) (omega arith))
      ]
