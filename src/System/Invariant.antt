-- ===== src/System/Invariant.antt =====
-- The batcher counts its threads, and gives each transaction of an epoch an id of its own; true at the
-- start and kept by every step.
pub mod Counts
pub mod Entering
pub mod Leaving
use cs_453_concurrent_algori.Common.{
  ℕ, zero, suc, ◌+◌, ◌≤◌, ◌<◌, ◌≡◌, ◌≢◌, ◌⊎◌, inl, inr, Bool, true, false, refl, if◌then◌else◌,
  update, Option, none, some, arith, Bool-cases, ◌==◌,
}
use cs_453_concurrent_algori.Common.Counting.{
  total, total-update, total_zero, weight-le-total, total-add, total_bound,
}
use cs_453_concurrent_algori.Common.Int.{ℤ, pos, is_pos}
use cs_453_concurrent_algori.Batcher.{Batcher}
use cs_453_concurrent_algori.Epoch.Leaving.{next_epoch, one_less}
use cs_453_concurrent_algori.System.{
  Pc, idle, waiting, woken, running, refused, wake, pc_left, System,
}
use cs_453_concurrent_algori.System.Batch.{batcher_left}
use Counts.{active, asleep, awake, id_of, active-le, asleep-le, awake-le}

pub record Inv (n : ℕ) (b : Batcher) (pc : ℕ → Pc) : Type 0 where
  pub open_lock : b.lock.mutex ≡ false
  pub remaining : b.n_remaining ≡ pos (total active n pc)
  pub blocked : b.n_blocked ≡ total asleep n pc
  pub sleepers : b.lock.all_tx_left_batcher ≡ b.n_blocked
  pub given : b.tx_id_generator + total awake n pc ≡ b.n_in_epoch
  pub empty : total active n pc ≡ 0 → (b.n_in_epoch ≡ 0) × (total asleep n pc ≡ 0)
  pub bounded : b.n_in_epoch ≤ n
  pub below : (i id : ℕ) → i < n → id_of (pc i) ≡ some id → id < b.tx_id_generator
  pub unique :
      (i j id : ℕ) → i < n → j < n → id_of (pc i) ≡ some id → id_of (pc j) ≡ some id → i ≡ j

module _ {n : ℕ} {b : Batcher} {pc : ℕ → Pc} (inv : Inv n b pc) (i : ℕ) (lt : i < n) where
  -- A thread changes its place, with the same counts and the same id.
  pub moved-Inv :
      (p : Pc)
      → active p ≡ active (pc i)
      → asleep p ≡ asleep (pc i)
      → awake p ≡ awake (pc i)
      → id_of p ≡ id_of (pc i)
      → Inv n b (update pc i p)
  moved-Inv p ha hs hw hid =
      let a = total-update active n pc i p lt in
      let s = total-update asleep n pc i p lt in
      let w = total-update awake n pc i p lt in
      record {
        open_lock = inv.open_lock;
        remaining = ground (arith, inv.remaining);
        blocked = omega (arith, inv.blocked);
        sleepers = inv.sleepers;
        given = omega (arith, inv.given);
        empty = λ h. ground (arith, inv.empty);
        bounded = inv.bounded;
        below = λ j id hj e. ground (arith, inv.below j id);
        unique = λ j k id hj hk e f. ground (arith, inv.unique j k id);
      }
