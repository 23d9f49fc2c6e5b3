-- ===== src/Batcher.antt =====
-- 275085/batcher.c and batcher.h: the batcher, which lets transactions run in epochs.
use cs_453_concurrent_algori.Common.{
  ℕ, suc, Bool, true, false, not, if◌then◌else◌, Outcome, done, ◌>>=◌,
}
use cs_453_concurrent_algori.Common.Int.{ℤ, pos, is_pos}
use cs_453_concurrent_algori.Lock.{Lock, lock_init, lock_acquire, lock_release, lock_wait}

-- `batcher_t`. `n_remaining` is the counter from which the code subtracts.
pub record Batcher : Type 0 where
  pub tx_id_generator : ℕ
  pub cur_epoch : ℕ
  pub n_remaining : ℤ
  pub n_blocked : ℕ
  pub n_in_epoch : ℕ
  pub lock : Lock

-- The arguments before the batcher say whether the two pthread calls of `lock_init` succeed.
unfoldable pub init_batcher : Bool → Bool → Batcher → Batcher × Bool
unfolding lock_init
init_batcher mutex_ok cond_ok b =
    let (l, ok) = lock_init mutex_ok cond_ok in
    if not ok then (record b { lock = l }, false) else (
      record {
        tx_id_generator = 0;
        cur_epoch = 0;
        n_remaining = pos 0;
        n_blocked = 0;
        n_in_epoch = 0;
        lock = l;
      },
      true,
    )

-- How a call of `enter_batcher` goes on: it returns an id, or it waits for the next epoch.
pub data Entry : Type 0 where
  entered : ℕ → Entry
  waits : Entry

-- The end of `enter_batcher`, with the lock held.
unfoldable pub take_tx_id : Batcher → Outcome (Batcher × ℕ)
unfolding lock_release
take_tx_id b = lock_release b.lock >>= λ l.
    done (record b { tx_id_generator = suc b.tx_id_generator; lock = l }, b.tx_id_generator)

-- `enter_batcher` up to its return or its wait
unfoldable pub enter_batcher : Batcher → Outcome (Batcher × Entry)
unfolding lock_acquire lock_wait take_tx_id
enter_batcher b = lock_acquire b.lock >>= λ l.
    (let b1 = record b { lock = l } in
      if is_pos b1.n_remaining 0
      then (take_tx_id (record b1 { n_in_epoch = 1; n_remaining = pos 1 }) >>= λ (b2, id).
          done (b2, entered id))
      else (lock_wait b1.lock >>= λ l2.
          done (record b1 { n_blocked = suc b1.n_blocked; lock = l2 }, waits)))

-- `enter_batcher` from its wait on, once the thread was woken
unfoldable pub enter_batcher_woken : Batcher → Outcome (Batcher × ℕ)
unfolding lock_acquire take_tx_id
enter_batcher_woken b = lock_acquire b.lock >>= λ l. take_tx_id (record b { lock = l })

unfoldable pub prepare_batcher_for_next_epoch : Batcher → Batcher
prepare_batcher_for_next_epoch b = record b {
  n_remaining = pos b.n_blocked;
  n_in_epoch = b.n_blocked;
  tx_id_generator = 0;
  cur_epoch = suc b.cur_epoch;
  n_blocked = 0;
}
