-- ===== src/System/Invariant/Counts.antt =====
-- Which threads count as what.
use cs_453_concurrent_algori.Common.{ℕ, ◌≤◌, Option, none, some, arith}
use cs_453_concurrent_algori.System.{Pc, idle, waiting, woken, running, refused}

-- A transaction of this epoch, whether or not its thread has run again since it was woken
abbrev pub active : Pc → ℕ
active idle = 0
active (waiting ro) = 0
active (woken ro) = 1
active (running id) = 1
active (refused id) = 1

abbrev pub asleep : Pc → ℕ
asleep (waiting ro) = 1
asleep idle = 0
asleep (woken ro) = 0
asleep (running id) = 0
asleep (refused id) = 0

abbrev pub awake : Pc → ℕ
awake (woken ro) = 1
awake idle = 0
awake (waiting ro) = 0
awake (running id) = 0
awake (refused id) = 0

abbrev pub id_of : Pc → Option ℕ
id_of (running id) = some id
id_of (refused id) = some id
id_of idle = none
id_of (waiting ro) = none
id_of (woken ro) = none

pub active-le : (p : Pc) → active p ≤ 1
active-le p = ground arith

pub asleep-le : (p : Pc) → asleep p ≤ 1
asleep-le p = ground arith

pub awake-le : (p : Pc) → awake p ≤ 1
awake-le p = ground arith
