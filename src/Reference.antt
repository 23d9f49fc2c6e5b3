-- ===== src/Reference.antt =====
-- reference/tm.c and shared-lock.c: the reference memory, one lock for the whole region. Many transactions
-- that only read run together, one that writes runs alone.
pub mod Exclusion
pub mod Chain
pub mod Unlink
pub mod Destroy
use cs_453_concurrent_algori.Common.{
  ℕ, zero, suc, ◌+◌, ◌-◌, Bool, true, false, ◌&&◌, ◌||◌, not, ◌==◌, ltb, leb, if◌then◌else◌, update,
  Option, none, some, Outcome, done, blocked, undefined, ◌>>=◌, ◌>>◌, defined_if,
}
use cs_453_concurrent_algori.Memory.{Bytes, memcpy}
use cs_453_concurrent_algori.Word.{success_alloc, nomem_alloc}

-- `struct shared_lock_t`: a read-write lock, as the number of its readers and whether a writer has it.
pub record SharedLock : Type 0 where
  pub readers : ℕ
  pub writer : Bool

-- Whether `pthread_rwlock_init` succeeds is a parameter.
unfoldable pub shared_lock_init : Bool → SharedLock × Bool
shared_lock_init ok = (record { readers = 0; writer = false }, ok)

unfoldable pub shared_lock_acquire : SharedLock → Outcome (SharedLock × Bool)
shared_lock_acquire l =
    if l.writer
    then blocked
    else if l.readers == 0
    then done (record l { writer = true }, true)
    else blocked

unfoldable pub shared_lock_acquire_shared : SharedLock → Outcome (SharedLock × Bool)
shared_lock_acquire_shared l =
    if l.writer then blocked else done (record l { readers = l.readers + 1 }, true)

-- Both releases are `pthread_rwlock_unlock`, which lets go what the caller has. A lock that nobody has is
-- not let go.
unfoldable pub shared_lock_release : SharedLock → Outcome SharedLock
shared_lock_release l =
    if l.writer
    then done (record l { writer = false })
    else if l.readers == 0
    then undefined
    else done (record l { readers = l.readers - 1 })

unfoldable pub shared_lock_release_shared : SharedLock → Outcome SharedLock
unfolding shared_lock_release
shared_lock_release_shared l = shared_lock_release l

abbrev pub invalid_tx : ℕ
invalid_tx = 0xFFFFFFFFFFFFFFFF

abbrev pub read_only_tx : ℕ
read_only_tx = 0xFFFFFFFFFFFFFFF5

abbrev pub read_write_tx : ℕ
read_write_tx = 0xFFFFFFFFFFFFFFF4

-- `struct segment_node`, without the bytes behind it. A pointer is an address, 0 the null pointer.
pub record SegmentNode : Type 0 where
  pub prev : ℕ
  pub next : ℕ

-- The size of a node
abbrev pub node_size : ℕ
node_size = 16

-- `struct region`. The last three fields are the process's memory: its bytes, the nodes in it, and which
-- of them are allocated.
pub record SharedRegion : Type 0 where
  pub lock : SharedLock
  pub start : ℕ
  pub allocs : ℕ
  pub size : ℕ
  pub align : ℕ
  pub memory : Bytes
  pub nodes : ℕ → SegmentNode
  pub live : ℕ → Bool

-- `memset(at, 0, size)`
abbrev pub clear : Bytes → ℕ → ℕ → Bytes
clear m at size a = if leb at a && ltb a (at + size) then 0 else m a

-- Whether `malloc` and the lock's initialisation succeed, and the address of the block, if there is one,
-- are parameters. The memory before the call is that of `raw`.
unfoldable pub tm_create : Bool → Option ℕ → Bool → SharedRegion → ℕ → ℕ → Option SharedRegion
unfolding shared_lock_init
tm_create region_ok (some start) lock_ok raw size align =
    let (lock, ok) = shared_lock_init lock_ok in
    if not region_ok
    then none
    else if not ok
    then none
    else some (record raw {
      lock = lock;
      start = start;
      memory = clear raw.memory start size;
      allocs = 0;
      size = size;
      align = align;
    })
tm_create region_ok none lock_ok raw size align = none

-- The loop of `tm_destroy`, for at most that many rounds; `blocked` if the loop goes on.
unfoldable pub free_segments : ℕ → SharedRegion → Outcome SharedRegion
free_segments zero r = if r.allocs == 0 then done r else blocked
free_segments (suc rounds) r =
    let tail = (r.nodes r.allocs).next in
    let rest =
      free_segments rounds (record r { live = update r.live r.allocs false; allocs = tail }) in
    if r.allocs == 0 then done r else (defined_if (r.live r.allocs) >> rest)

-- The block of the region and the lock are given back last, which leaves no state.
unfoldable pub tm_destroy : ℕ → SharedRegion → Outcome SharedRegion
unfolding free_segments
tm_destroy rounds r = free_segments rounds r

-- The address of the region's first word
unfoldable pub tm_start : SharedRegion → ℕ
tm_start r = r.start

unfoldable pub tm_size : SharedRegion → ℕ
tm_size r = r.size

unfoldable pub tm_align : SharedRegion → ℕ
tm_align r = r.align

unfoldable pub tm_begin : SharedRegion → Bool → Outcome (SharedRegion × ℕ)
unfolding shared_lock_acquire shared_lock_acquire_shared
tm_begin r is_ro =
    if is_ro
    then (shared_lock_acquire_shared r.lock >>= λ (l, ok).
        done (record r { lock = l }, if not ok then invalid_tx else read_only_tx))
    else (shared_lock_acquire r.lock >>= λ (l, ok).
        done (record r { lock = l }, if not ok then invalid_tx else read_write_tx))

unfoldable pub tm_end : SharedRegion → ℕ → Outcome (SharedRegion × Bool)
unfolding shared_lock_release shared_lock_release_shared
tm_end r tx =
    if tx == read_only_tx
    then (shared_lock_release_shared r.lock >>= λ l. done (record r { lock = l }, true))
    else (shared_lock_release r.lock >>= λ l. done (record r { lock = l }, true))

-- From shared memory into a block of private memory
unfoldable pub tm_read : SharedRegion → ℕ → ℕ → ℕ → Bytes → ℕ → Bytes × Bool
tm_read r tx source size target at = (memcpy target at r.memory source size, true)

-- From a block of private memory into shared memory
unfoldable pub tm_write : SharedRegion → ℕ → Bytes → ℕ → ℕ → ℕ → SharedRegion × Bool
tm_write r tx source from size target =
    (record r { memory = memcpy r.memory target source from size }, true)

-- The address that `posix_memalign` returns, if it succeeds, is a parameter.
unfoldable pub tm_alloc : Option ℕ → SharedRegion → ℕ → SharedRegion × ℕ × Option ℕ
tm_alloc none r size = (r, nomem_alloc, none)
tm_alloc (some sn) r size =
    let first = r.allocs in
    let nodes1 = update r.nodes sn (record { prev = 0; next = first }) in
    let nodes2 =
      if first == 0 then nodes1 else update nodes1 first (record (nodes1 first) { prev = sn }) in
    (
      record r {
        allocs = sn;
        nodes = nodes2;
        live = update r.live sn true;
        memory = clear r.memory (sn + node_size) size;
      },
      success_alloc,
      some (sn + node_size),
    )

-- A node that is not allocated may not be followed.
unfoldable pub tm_free : SharedRegion → ℕ → Outcome (SharedRegion × Bool)
tm_free r segment =
    let sn = segment - node_size in
    let node = r.nodes sn in
    let r1 = if node.prev == 0 then record r { allocs = node.next } else record r {
      nodes = update r.nodes node.prev (record (r.nodes node.prev) { next = node.next });
    } in
    let r2 = if node.next == 0 then r1 else record r1 {
      nodes = update r1.nodes node.next (record (r1.nodes node.next) { prev = node.prev });
    } in
    defined_if (
      r.live sn
      && (leb node_size segment
          && ((node.prev == 0 || r.live node.prev) && (node.next == 0 || r.live node.next))))
    >> done (record r2 { live = update r2.live sn false }, true)
