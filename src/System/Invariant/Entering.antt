-- ===== src/System/Invariant/Entering.antt =====
-- A thread that enters the batcher, at once or with a wait, keeps the invariant.
use cs_453_concurrent_algori.Common.{
  ℕ, suc, ◌+◌, ◌<◌, ◌≡◌, ◌≢◌, Bool, refl, update, some, arith, false,
}
use cs_453_concurrent_algori.Common.Counting.{total, total-update, weight-le-total}
use cs_453_concurrent_algori.Common.Int.{pos}
use cs_453_concurrent_algori.Batcher.{Batcher}
use cs_453_concurrent_algori.System.{Pc, idle, waiting, woken, running}
use cs_453_concurrent_algori.System.Invariant.{Inv}
use cs_453_concurrent_algori.System.Invariant.Counts.{active, asleep, awake, id_of}

-- An active thread shows in the counter.
active_counted :
    {n : ℕ} {b : Batcher} {pc : ℕ → Pc}
    → Inv n b pc
    → b.n_remaining ≡ pos 0
    → (j : ℕ) → j < n
    → active (pc j) ≡ 0
active_counted {n} {b} {pc} inv e j h =
    ground (arith, inv.remaining, weight-le-total active n pc j h)

no_id : (p : Pc) (id : ℕ) → active p ≡ 0 → id_of p ≢ some id
no_id p id h = ground arith

module _ {n : ℕ} {b : Batcher} {pc : ℕ → Pc} (inv : Inv n b pc) (i : ℕ) (lt : i < n) where
  abbrev first_in : Batcher
  first_in = record b {
    n_in_epoch = 1;
    n_remaining = pos 1;
    tx_id_generator = suc b.tx_id_generator;
  }

  pub begins-Inv :
      pc i ≡ idle → b.n_remaining ≡ pos 0 → Inv n first_in (update pc i (running b.tx_id_generator))
  begins-Inv h e =
      let p = running b.tx_id_generator in
      let a = total-update active n pc i p lt in
      let s = total-update asleep n pc i p lt in
      let w = total-update awake n pc i p lt in
      let none_active : total active n pc ≡ 0 = ground (arith, inv.remaining) in
      let nobody = inv.empty none_active in
      record {
        open_lock = inv.open_lock;
        remaining = ground arith;
        blocked = ground (arith, inv.blocked);
        sleepers = inv.sleepers;
        given = ground (arith, inv.given);
        empty = λ z. ground arith;
        bounded = omega arith;
        below = λ j id hj q. ground (arith, active_counted inv e j hj, no_id (pc j) id);
        unique = λ j k id hj hk q r. ground (
          arith,
          active_counted inv e j hj,
          no_id (pc j) id,
          active_counted inv e k hk,
          no_id (pc k) id,
        );
      }

  abbrev one_waits : Batcher
  one_waits = record b {
    n_blocked = suc b.n_blocked;
    lock = record { mutex = false; all_tx_left_batcher = b.lock.all_tx_left_batcher + 1 };
  }

  pub blocks-Inv :
      (ro : Bool) → pc i ≡ idle → b.n_remaining ≢ pos 0 → Inv n one_waits (update pc i (waiting ro))
  blocks-Inv ro h e =
      let p = waiting ro in
      let a = total-update active n pc i p lt in
      let s = total-update asleep n pc i p lt in
      let w = total-update awake n pc i p lt in
      let some_active : total active n pc ≢ 0 = ground (arith, inv.remaining) in
      record {
        open_lock = refl;
        remaining = ground (arith, inv.remaining);
        blocked = ground (arith, inv.blocked);
        sleepers = ground (arith, inv.sleepers);
        given = ground (arith, inv.given);
        empty = λ z. ground arith;
        bounded = inv.bounded;
        below = λ j id hj q. ground (arith, inv.below j id);
        unique = λ j k id hj hk q r. ground (arith, inv.unique j k id);
      }

  abbrev next_id : Batcher
  next_id = record b { tx_id_generator = suc b.tx_id_generator }

  pub resumes-Inv :
      (ro : Bool) → pc i ≡ woken ro → Inv n next_id (update pc i (running b.tx_id_generator))
  resumes-Inv ro h =
      let p = running b.tx_id_generator in
      let a = total-update active n pc i p lt in
      let s = total-update asleep n pc i p lt in
      let w = total-update awake n pc i p lt in
      record {
        open_lock = inv.open_lock;
        remaining = ground (arith, inv.remaining);
        blocked = ground (arith, inv.blocked);
        sleepers = inv.sleepers;
        given = ground (arith, inv.given);
        empty = λ z. ground (arith, inv.empty);
        bounded = inv.bounded;
        below = λ j id hj q. ground (arith, inv.below j id);
        unique =
            λ j k id hj hk q r. ground (arith, inv.unique j k id, inv.below j id, inv.below k id);
      }
