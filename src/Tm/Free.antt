-- ===== src/Tm/Free.antt =====
-- `tm_free` on its branches.
use cs_453_concurrent_algori.Common.{
  ℕ, ◌<◌, ◌≤◌, ◌≡◌, true, false, done, undefined, arith, if◌then◌else◌, ◌==◌,
}
use cs_453_concurrent_algori.Address.{extract_seg_id}
use cs_453_concurrent_algori.Segment.{none_tx}
use cs_453_concurrent_algori.Region.{Region, set_segment}
use cs_453_concurrent_algori.Epoch.{abort_transaction_tx}
use cs_453_concurrent_algori.Tm.{tm_free}

-- The region where a transaction has deregistered a segment
abbrev pub deregister : Region → ℕ → ℕ → Region
deregister r i tx = set_segment r i (record (r.segments i) { deregistered = tx })

-- A transaction that frees a segment of the region, with the global lock free: one that is not deregistered is marked as its own; one that another
-- transaction deregistered makes it abort; and for one that it deregistered itself the global lock is let
-- go twice, which is undefined.
pub tm_free_lem :
    (r : Region) (tx target : ℕ)
    → r.global_lock.mutex ≡ false
    → r.n_segments ≤ r.capacity
    → extract_seg_id target < r.n_segments
    → tm_free r tx target ≡ (
        if (r.segments (extract_seg_id target)).deregistered == none_tx
        then done (deregister r (extract_seg_id target) tx, true)
        else if (r.segments (extract_seg_id target)).deregistered == tx
        then undefined
        else abort_transaction_tx r tx)
unfolding tm_free
tm_free_lem r tx target free fits inside = ground arith
