-- ===== src/Region.antt =====
-- 275085/batcher.h: the shared memory region.
use cs_453_concurrent_algori.Common.{
  ℕ, Bool, ◌&&◌, ltb, if◌then◌else◌, update, Outcome, done, undefined,
}
use cs_453_concurrent_algori.Lock.{Lock}
use cs_453_concurrent_algori.Stack.{Stack}
use cs_453_concurrent_algori.Segment.{Segment}
use cs_453_concurrent_algori.Batcher.{Batcher}

abbrev pub max_num_segments : ℕ
max_num_segments = 0x10000

-- `region_t`. `capacity` is no field of the source: it is the number of elements of the block that
-- `segments` points to.
pub record Region : Type 0 where
  pub addr : ℕ
  pub n_segments : ℕ
  pub segments : ℕ → Segment
  pub capacity : ℕ
  pub global_lock : Lock
  pub batcher : Batcher
  pub align : ℕ
  pub seg_size : ℕ
  pub is_ro_flags : ℕ → Bool
  pub free_seg_indices : Stack

-- `&region->segments[i]`: an element of the block that was initialised.
unfoldable pub segment_at : Region → ℕ → Outcome Segment
segment_at r i = if ltb i r.n_segments && ltb i r.capacity then done (r.segments i) else undefined

abbrev pub set_segment : Region → ℕ → Segment → Region
set_segment r i seg = record r { segments = update r.segments i seg }
