-- ===== src/Reference/Destroy.antt =====
-- `tm_destroy` of reference/tm.c frees every segment.
use cs_453_concurrent_algori.Common.{
  ℕ, suc, ◌≡◌, refl, Bool, false, List, [], ◌∷◌, done, update, arith,
}
use cs_453_concurrent_algori.Reference.{SharedRegion, free_segments, tm_destroy}
use cs_453_concurrent_algori.Reference.Chain.{
  Linked, Absent, Distinct, AllLive, Segments, AllLive-update,
}

abbrev pub count : List ℕ → ℕ
count [] = 0
count (x ∷ xs) = suc (count xs)

-- No node of the list is allocated, and those that are in neither list are as they were.
abbrev pub Gone : (ℕ → Bool) → List ℕ → Type 0
Gone live [] = Unit
Gone live (x ∷ xs) = (live x ≡ false) × Gone live xs

record Freed (r : SharedRegion) (xs : List ℕ) (r' : SharedRegion) : Type 0 where
  empty : r'.allocs ≡ 0
  gone : Gone r'.live xs
  others : (z : ℕ) → Absent z xs → r'.live z ≡ r.live z

free_segments-Freed :
    (xs : List ℕ) (r : SharedRegion) (before : ℕ)
    → Linked r.nodes before r.allocs xs
    → Distinct xs
    → AllLive r.live xs
    → (r' : SharedRegion) × (free_segments (count xs) r ≡ done r') × Freed r xs r'
unfolding free_segments
free_segments-Freed [] r before l d a =
    (r, ground arith, record { empty = l; gone = tt; others = λ z h. refl })
free_segments-Freed (x ∷ xs) r before (e, nz, p, l) (dx, d) (ax, a) =
    let next = record r { live = update r.live x false; allocs = (r.nodes x).next } in
    let (r', run, f) = free_segments-Freed xs next x l d (AllLive-update r.live x false xs dx a) in
    (
      r',
      ground (arith, run),
      record {
        empty = f.empty;
        gone = (ground (arith, f.others x dx), f.gone);
        others = λ z (ne, h). ground (arith, f.others z h);
      },
    )

-- The loop of `tm_destroy` ends within as many rounds as the region's list has segments. Behind it the list
-- is empty, and no node of it is allocated.
pub tm_destroy-Gone :
    (r : SharedRegion) (xs : List ℕ)
    → Segments r xs
    → (r' : SharedRegion) × (tm_destroy (count xs) r ≡ done r') × (r'.allocs ≡ 0) × Gone r'.live xs
unfolding tm_destroy
tm_destroy-Gone r xs s =
    let (r', run, f) = free_segments-Freed xs r 0 s.linked s.distinct s.all_live in
    (r', run, f.empty, f.gone)
