-- ===== src/Tests/Baseline.antt =====
-- The theorems on reference/tm.c, at a region with three segments and at two threads.
use cs_453_concurrent_algori.Common.{
  ℕ, ◌+◌, ◌≡◌, refl, true, false, List, [], ◌∷◌, Option, some, none, done, update, arith,
}
use cs_453_concurrent_algori.Memory.{zeroed}
use cs_453_concurrent_algori.Reference.{
  SharedRegion, SharedLock, node_size, read_write_tx, tm_create, tm_begin, tm_alloc, tm_free,
  tm_destroy,
}
use cs_453_concurrent_algori.Reference.Exclusion.{
  outside, inside, State, start, later, begins, writer_alone,
}
use cs_453_concurrent_algori.Reference.Chain.{Segments, tm_alloc-Segments}
use cs_453_concurrent_algori.Reference.Unlink.{tm_free-Segments}
use cs_453_concurrent_algori.Reference.Destroy.{Gone, tm_destroy-Gone}

abbrev free_lock : SharedLock
free_lock = record { readers = 0; writer = false }

abbrev raw : SharedRegion
raw = record {
  lock = free_lock;
  start = 0;
  allocs = 0;
  size = 0;
  align = 0;
  memory = zeroed;
  nodes = λ _. record { prev = 0; next = 0 };
  live = λ _. false;
}

-- Nodes at 300, 200 and 100, in this order
abbrev three : SharedRegion
three = record raw {
  allocs = 300;
  nodes =
      update
        (update (update raw.nodes 300 (record { prev = 0; next = 200 })) 200
          (record { prev = 300; next = 100 }))
        100 (record { prev = 200; next = 0 });
  live = update (update (update raw.live 300 true) 200 true) 100 true;
}

abbrev listed : List ℕ
listed = 300 ∷ 200 ∷ 100 ∷ []

three-Segments : Segments three listed
three-Segments = record {
  linked = (refl, omega arith, refl, (refl, omega arith, refl, (refl, omega arith, refl, refl)));
  distinct = ((omega arith, (omega arith, tt)), ((omega arith, tt), (tt, tt)));
  all_live = (refl, (refl, (refl, tt)));
}

tm_alloc-Segments_example :
    ((tm_alloc (some 400) three 16).2 ≡ some (400 + node_size))
    × Segments (tm_alloc (some 400) three 16).0 (400 ∷ listed)
tm_alloc-Segments_example =
    tm_alloc-Segments three listed 400 16 three-Segments (omega arith)
      (omega arith, (omega arith, (omega arith, tt)))

tm_free-Segments_example :
    (r' : SharedRegion) × (tm_free three (200 + node_size) ≡ done (r', true))
    × Segments r' (300 ∷ 100 ∷ [])
    × (r'.live 200 ≡ false)
tm_free-Segments_example = tm_free-Segments three (300 ∷ []) 200 (100 ∷ []) three-Segments

tm_destroy-Gone_example :
    (r' : SharedRegion) × (tm_destroy 3 three ≡ done r') × (r'.allocs ≡ 0) × Gone r'.live listed
tm_destroy-Gone_example = tm_destroy-Gone three listed three-Segments

region_of : Option SharedRegion → SharedRegion
region_of (some r) = r
region_of none = raw

unfoldable created : SharedRegion
created = region_of (tm_create true (some 64) true raw 32 8)

was_created : tm_create true (some 64) true raw 32 8 ≡ some created
unfolding tm_create created region_of
was_created = refl

-- Thread 0 writes.
abbrev one_writes : State
one_writes = record {
  region = record created { lock = record created.lock { writer = true } };
  place = update (λ _. outside) 0 (inside read_write_tx);
}

writes_begun : tm_begin created false ≡ done (one_writes.region, read_write_tx)
unfolding tm_begin tm_create created region_of
writes_begun = refl

writer_alone_example : one_writes.place 1 ≡ outside
writer_alone_example =
    writer_alone 2 true (some 64) true raw created 32 8 one_writes was_created
      (later start (begins 0 false (omega arith) refl writes_begun)) 0 1 read_write_tx (omega arith)
      (omega arith) (omega arith) refl (omega arith)
