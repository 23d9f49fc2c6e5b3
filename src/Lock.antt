-- ===== src/Lock.antt =====
-- 275085/lock.c and lock.h: a mutex with one condition variable. The pthread calls are the platform's:
-- a mutex is held or free, and a condition variable has a number of threads that wait on it.
use cs_453_concurrent_algori.Common.{
  ℕ, ◌+◌, Bool, true, false, ◌&&◌, ◌||◌, not, ◌==◌, if◌then◌else◌, Outcome, done, blocked,
  undefined,
}

-- `struct lock_t`: whether the mutex is held, and how many threads are in `pthread_cond_wait`.
pub record Lock : Type 0 where
  pub mutex : Bool
  pub all_tx_left_batcher : ℕ

abbrev pub free_lock : Lock
free_lock = record { mutex = false; all_tx_left_batcher = 0 }

-- The arguments say whether `pthread_mutex_init` and `pthread_cond_init` succeed.
unfoldable pub lock_init : Bool → Bool → Lock × Bool
lock_init mutex_ok cond_ok = (free_lock, mutex_ok && cond_ok)

-- To destroy a mutex that is held, or a condition that threads wait on, is undefined.
unfoldable pub lock_cleanup : Lock → Outcome (Unit {0})
lock_cleanup l = if l.mutex || not (l.all_tx_left_batcher == 0) then undefined else done tt

-- The result of the C function is not read anywhere; it is `true` whenever the call returns.
unfoldable pub lock_acquire : Lock → Outcome Lock
lock_acquire l = if l.mutex then blocked else done (record l { mutex = true })

-- To unlock a mutex that nobody holds is undefined.
unfoldable pub lock_release : Lock → Outcome Lock
lock_release l = if l.mutex then done (record l { mutex = false }) else undefined

-- The first half of a wait: the mutex is let go and the thread is among those that wait. The second
-- half, behind a wake-up, is `lock_acquire`.
unfoldable pub lock_wait : Lock → Outcome Lock
lock_wait l =
    if l.mutex
    then done (record { mutex = false; all_tx_left_batcher = l.all_tx_left_batcher + 1 })
    else undefined

-- The broadcast: nobody waits any longer.
unfoldable pub lock_wake_up : Lock → Lock
lock_wake_up l = record l { all_tx_left_batcher = 0 }
