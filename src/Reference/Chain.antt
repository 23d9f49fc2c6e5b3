-- ===== src/Reference/Chain.antt =====
-- The allocated segments of reference/tm.c as a doubly linked list.
use cs_453_concurrent_algori.Common.{
  ℕ, ◌+◌, ◌≡◌, ◌≢◌, ◌==◌, refl, sym, subst, Bool, true, if◌then◌else◌, List, [], ◌∷◌, ◌++◌, some,
  update, arith,
}
use cs_453_concurrent_algori.Reference.{SegmentNode, SharedRegion, node_size, tm_alloc}

-- The nodes from address `at` on are those of the list, the one before them is at `before`.
abbrev pub Linked : (ℕ → SegmentNode) → ℕ → ℕ → List ℕ → Type 0
Linked f before at [] = at ≡ 0
Linked f before at (x ∷ xs) = (at ≡ x) × (x ≢ 0) × ((f x).prev ≡ before) × Linked f x (f x).next xs

abbrev pub Absent : ℕ → List ℕ → Type 0
Absent y [] = Unit
Absent y (x ∷ xs) = (y ≢ x) × Absent y xs

abbrev pub Distinct : List ℕ → Type 0
Distinct [] = Unit
Distinct (x ∷ xs) = Absent x xs × Distinct xs

abbrev pub AllLive : (ℕ → Bool) → List ℕ → Type 0
AllLive live [] = Unit
AllLive live (x ∷ xs) = (live x ≡ true) × AllLive live xs

-- The list of the segments that a region has allocated
pub record Segments (r : SharedRegion) (xs : List ℕ) : Type 0 where
  pub linked : Linked r.nodes 0 r.allocs xs
  pub distinct : Distinct xs
  pub all_live : AllLive r.live xs

pub Linked-update :
    (f : ℕ → SegmentNode) (y : ℕ) (v : SegmentNode) (before at : ℕ) (xs : List ℕ)
    → Absent y xs
    → Linked f before at xs
    → Linked (update f y v) before at xs
Linked-update f y v before at [] a l = l
Linked-update f y v before at (x ∷ xs) (ne, a) (e, nz, p, l) =
    let same : update f y v x ≡ f x = ground arith in
    (e, nz, ground arith, rw same (Linked-update f y v x (f x).next xs a l))

pub AllLive-update :
    (live : ℕ → Bool) (y : ℕ) (b : Bool) (xs : List ℕ)
    → Absent y xs
    → AllLive live xs
    → AllLive (update live y b) xs
AllLive-update live y b [] a l = tt
AllLive-update live y b (x ∷ xs) (ne, a) (e, l) = (ground arith, AllLive-update live y b xs a l)

-- A node that is put before a list
pushed : (ℕ → SegmentNode) → ℕ → ℕ → ℕ → SegmentNode
pushed f sn first =
    let f1 = update f sn (record { prev = 0; next = first }) in
    if first == 0 then f1 else update f1 first (record (f1 first) { prev = sn })

pushed-Linked :
    (f : ℕ → SegmentNode) (sn first : ℕ) (xs : List ℕ)
    → sn ≢ 0
    → Absent sn xs
    → Distinct xs
    → Linked f 0 first xs
    → Linked (pushed f sn first) 0 sn (sn ∷ xs)
unfolding pushed
pushed-Linked f sn first [] nz a d l = (refl, nz, ground arith, ground arith)
pushed-Linked f sn first (x ∷ xs) nz (ne, a) (dx, d) (e, xz, p, l) =
    let f1 = update f sn (record { prev = 0; next = x }) in
    let f2 = update f1 x (record (f1 x) { prev = sn }) in
    let tail : Linked f2 x (f x).next xs =
      Linked-update f1 x (record (f1 x) { prev = sn }) x (f x).next xs dx
        (Linked-update f sn (record { prev = 0; next = x }) x (f x).next xs a l) in
    let next_same : (f2 x).next ≡ (f x).next = ground arith in
    let run : pushed f sn first ≡ f2 = ground arith in
    let head_next : (f2 sn).next ≡ x = ground arith in
    subst (λ g. Linked g 0 sn (sn ∷ x ∷ xs)) (sym run)
      (
        refl,
        nz,
        ground arith,
        (head_next, xz, ground arith, subst (λ k. Linked f2 x k xs) (sym next_same) tail),
      )

-- An allocation at an address that is not of an allocated segment's node puts the new segment before the
-- others in the list, and returns the address behind its node.
pub tm_alloc-Segments :
    (r : SharedRegion) (xs : List ℕ) (sn size : ℕ)
    → Segments r xs
    → sn ≢ 0
    → Absent sn xs
    → ((tm_alloc (some sn) r size).2 ≡ some (sn + node_size))
      × Segments (tm_alloc (some sn) r size).0 (sn ∷ xs)
unfolding tm_alloc pushed
tm_alloc-Segments r xs sn size s nz a = (
  refl,
  record {
    linked = pushed-Linked r.nodes sn r.allocs xs nz a s.distinct s.linked;
    distinct = (a, s.distinct);
    all_live = (ground arith, AllLive-update r.live sn true xs a s.all_live);
  },
)

-- The links without node `y`
abbrev pub unlinked : (ℕ → SegmentNode) → ℕ → ℕ → SegmentNode
unlinked f y =
    let f1 =
      if (f y).prev == 0
      then f
      else update f (f y).prev (record (f (f y).prev) { next = (f y).next }) in
    if (f y).next == 0
    then f1
    else update f1 (f y).next (record (f1 (f y).next) { prev = (f y).prev })

-- The last node of a list, and the first, if there is one
abbrev pub last_of : ℕ → List ℕ → ℕ
last_of before [] = before
last_of before (x ∷ xs) = last_of x xs

abbrev pub first_of : List ℕ → ℕ
first_of [] = 0
first_of (x ∷ xs) = x

pub Linked-first :
    (f : ℕ → SegmentNode) (before at : ℕ) (xs : List ℕ) → Linked f before at xs → at ≡ first_of xs
Linked-first f before at [] l = l
Linked-first f before at (x ∷ xs) l = l.0

pub Linked-prev :
    (f : ℕ → SegmentNode) (before at : ℕ) (xs : List ℕ) (y : ℕ) (ys : List ℕ)
    → Linked f before at (xs ++ y ∷ ys)
    → ((f y).prev ≡ last_of before xs) × ((f y).next ≡ first_of ys)
Linked-prev f before at [] y ys (e, nz, p, l) = (p, Linked-first f y (f y).next ys l)
Linked-prev f before at (x ∷ xs) y ys (e, nz, p, l) = Linked-prev f x (f x).next xs y ys l

pub Absent-parts :
    (z : ℕ) (xs : List ℕ) (y : ℕ) (ys : List ℕ)
    → Absent z (xs ++ y ∷ ys)
    → Absent z xs × (z ≢ y) × Absent z ys
Absent-parts z [] y ys (ne, a) = (tt, ne, a)
Absent-parts z (x ∷ xs) y ys (ne, a) = let (b, c, d) = Absent-parts z xs y ys a in ((ne, b), c, d)

pub Absent-join : (z : ℕ) (xs ys : List ℕ) → Absent z xs → Absent z ys → Absent z (xs ++ ys)
Absent-join z [] ys a b = b
Absent-join z (x ∷ xs) ys (ne, a) b = (ne, Absent-join z xs ys a b)

pub Absent-last : (z before : ℕ) (xs : List ℕ) → z ≢ before → Absent z xs → z ≢ last_of before xs
Absent-last z before [] ne a = ne
Absent-last z before (x ∷ xs) ne (nx, a) = Absent-last z x xs nx a

pub Absent-first : (z : ℕ) (xs : List ℕ) → z ≢ 0 → Absent z xs → z ≢ first_of xs
Absent-first z [] nz a = nz
Absent-first z (x ∷ xs) nz (ne, a) = ne
