-- ===== src/System/Invariant/Leaving.antt =====
-- A transaction that leaves the batcher keeps the invariant; the last one of an epoch hands over to the
-- threads that waited.
use cs_453_concurrent_algori.Common.{
  ℕ, ◌+◌, ◌≤◌, ◌<◌, ◌≡◌, ◌≢◌, true, false, inl, inr, refl, update, some, arith, Bool-cases,
}
use cs_453_concurrent_algori.Common.Counting.{
  total, total-update, weight-le-total, total-add, total_bound, total_zero,
}
use cs_453_concurrent_algori.Common.Int.{is_pos}
use cs_453_concurrent_algori.Batcher.{Batcher}
use cs_453_concurrent_algori.Epoch.Leaving.{next_epoch, one_less}
use cs_453_concurrent_algori.System.{Pc, idle, wake, pc_left}
use cs_453_concurrent_algori.System.Batch.{batcher_left}
use cs_453_concurrent_algori.System.Invariant.{Inv}
use cs_453_concurrent_algori.System.Invariant.Counts.{active, asleep, awake, id_of, asleep-le}

-- A broadcast makes the sleeping threads active, and leaves nobody asleep.
active-wake : (p : Pc) → active (wake p) ≡ active p + asleep p
active-wake p = ground arith

asleep-wake : (p : Pc) → asleep (wake p) ≡ 0
asleep-wake p = ground arith

awake-wake : (p : Pc) → awake (wake p) ≡ awake p + asleep p
awake-wake p = ground arith

id_of-wake : (p : Pc) (id : ℕ) → active p ≡ 0 → id_of (wake p) ≢ some id
id_of-wake p id h = ground arith

awake-le-active : (p : Pc) → awake p ≤ active p
awake-le-active p = ground arith

module _ {n : ℕ} {b : Batcher} {pc : ℕ → Pc} (inv : Inv n b pc) (i : ℕ) (lt : i < n)
    (is_active : active (pc i) ≡ 1) (not_asleep : asleep (pc i) ≡ 0)
    (not_awake : awake (pc i) ≡ 0) where
  abbrev left : ℕ → Pc
  left = update pc i idle

  no_active : (j : ℕ) → j < n → total active n left ≡ 0 → active (left j) ≡ 0
  no_active j h quiet = omega (arith, weight-le-total active n left j h)

  no_awake : (j : ℕ) → j < n → total active n left ≡ 0 → awake (left j) ≡ 0
  no_awake j h quiet = omega (arith, no_active j h quiet, awake-le-active (left j))

  one_less-Inv : is_pos b.n_remaining 1 ≡ false → Inv n (one_less b) (update pc i idle)
  one_less-Inv more =
      let a = total-update active n pc i idle lt in
      let s = total-update asleep n pc i idle lt in
      let w = total-update awake n pc i idle lt in
      let two : total active n pc ≢ 1 = ground (arith, inv.remaining) in
      record {
        open_lock = inv.open_lock;
        remaining = ground (arith, inv.remaining);
        blocked = ground (arith, inv.blocked);
        sleepers = inv.sleepers;
        given = ground (arith, inv.given);
        empty = λ z. absurd (omega arith);
        bounded = inv.bounded;
        below = λ j id hj q. ground (arith, inv.below j id);
        unique = λ j k id hj hk q r. ground (arith, inv.unique j k id);
      }

  next_epoch-Inv :
      is_pos b.n_remaining 1 ≡ true → Inv n (next_epoch b) (λ j. wake (update pc i idle j))
  next_epoch-Inv last =
      let a = total-update active n pc i idle lt in
      let s = total-update asleep n pc i idle lt in
      let w = total-update awake n pc i idle lt in
      let one : total active n pc ≡ 1 = ground (arith, inv.remaining) in
      let quiet : total active n left ≡ 0 = omega arith in
      let a' = total-add active asleep active wake n left active-wake in
      let s' = total_zero asleep n (λ j. wake (left j)) (λ j h. asleep-wake (left j)) in
      let w' = total-add awake asleep awake wake n left awake-wake in
      let none_awake = total_zero awake n left (λ j h. no_awake j h quiet) in
      record {
        open_lock = refl;
        remaining = ground (arith, inv.blocked);
        blocked = ground arith;
        sleepers = refl;
        given = ground (arith, inv.blocked);
        empty = λ z. ground (arith, inv.blocked);
        bounded = omega (arith, inv.blocked, total_bound asleep n pc asleep-le);
        below = λ j id hj q. absurd (id_of-wake (left j) id (no_active j hj quiet) q);
        unique = λ j k id hj hk q r. absurd (id_of-wake (left j) id (no_active j hj quiet) q);
      }

  -- The call that leaves, on both branches
  pub leaves-Inv : Inv n (batcher_left b) (pc_left b pc i)
  leaves-Inv = elim (Bool-cases (is_pos b.n_remaining 1)) [
    | inl last ↦ rw last (next_epoch-Inv last)
    | inr more ↦ rw more (one_less-Inv more)
  ]
