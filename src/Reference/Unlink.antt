-- ===== src/Reference/Unlink.antt =====
-- `tm_free` of reference/tm.c takes a segment out of the list.
use cs_453_concurrent_algori.Common.{
  ℕ, ◌+◌, ◌-◌, ◌≡◌, ◌≢◌, ◌==◌, ◌⊎◌, inl, inr, refl, sym, subst, Bool, true, false, if◌then◌else◌,
  List, [], ◌∷◌, ◌++◌, done, update, arith, ap, ◌∙◌, ℕ_discrete,
}
use cs_453_concurrent_algori.Reference.{SegmentNode, SharedRegion, node_size, tm_free}
use cs_453_concurrent_algori.Reference.Chain.{
  Linked, Absent, Distinct, AllLive, Segments, Linked-update, AllLive-update, unlinked, last_of,
  first_of, Linked-prev, Absent-parts, Absent-join, Absent-last, Absent-first,
}

unlinked_other :
    (f : ℕ → SegmentNode) (y z : ℕ) → z ≢ (f y).prev → z ≢ (f y).next → unlinked f y z ≡ f z
unlinked_other f y z p q = ground arith

unlinked_prev :
    (f : ℕ → SegmentNode) (y z : ℕ) → z ≢ (f y).next → (unlinked f y z).prev ≡ (f z).prev
unlinked_prev f y z q = ground arith

unlinked_next :
    (f : ℕ → SegmentNode) (y x : ℕ) → x ≡ (f y).prev → x ≢ 0 → (unlinked f y x).next ≡ (f y).next
unlinked_next f y x p nz = ground arith

-- The first node behind `y` follows what was before `y`.
unlinked_first :
    (f : ℕ → SegmentNode) (before y z : ℕ) (zs : List ℕ)
    → (f y).prev ≡ before
    → (f y).next ≡ z
    → z ≢ 0
    → before ≡ 0
    → Absent z zs
    → Linked f z (f z).next zs
    → Linked (unlinked f y) before z (z ∷ zs)
unlinked_first f before y z zs p q nz none dz l =
    let g = update f z (record (f z) { prev = before }) in
    let run : unlinked f y ≡ g = ground arith in
    let same : (g z).next ≡ (f z).next = ground arith in
    subst (λ h. Linked h before z (z ∷ zs)) (sym run)
      (
        refl,
        nz,
        ground arith,
        subst (λ k. Linked g z k zs) (sym same)
            (Linked-update f z (record (f z) { prev = before }) z (f z).next zs dz l),
      )

unlinked_head :
    (f : ℕ → SegmentNode) (before y z : ℕ) (zs : List ℕ)
    → (f y).prev ≡ before
    → (f y).next ≡ z
    → z ≢ 0
    → (before ≡ 0) ⊎ (Absent before (z ∷ zs))
    → Absent z zs
    → Linked f z (f z).next zs
    → Linked (unlinked f y) before z (z ∷ zs)
unlinked_head f before y z zs p q nz (inl none) dz l =
    unlinked_first f before y z zs p q nz none dz l
unlinked_head f before y z zs p q nz (inr (ne, a)) dz l = elim (ℕ_discrete before 0) [
  | yes none ↦ unlinked_first f before y z zs p q nz none dz l
  | no some_before ↦
      let v : SegmentNode = record (f before) { next = z } in
      let f1 = update f before v in
      let u : SegmentNode = record (f1 z) { prev = before } in
      let g = update f1 z u in
      let run : unlinked f y ≡ g = ground arith in
      let same : (g z).next ≡ (f z).next = ground arith in
      subst (λ h. Linked h before z (z ∷ zs)) (sym run)
        (
          refl,
          nz,
          ground arith,
          subst (λ k. Linked g z k zs) (sym same)
              (Linked-update f1 z u z (f z).next zs dz
                (Linked-update f before v z (f z).next zs a l)),
        )
]

module _ (f : ℕ → SegmentNode) (y : ℕ) where
  next_behind :
      (x : ℕ) (xs ys : List ℕ)
      → x ≢ 0
      → Absent x (xs ++ y ∷ ys)
      → Linked f x (f x).next (xs ++ y ∷ ys)
      → (unlinked f y x).next ≡ first_of (xs ++ ys)
  next_behind x [] ys nz a l =
      let (p, q) = Linked-prev f x (f x).next [] y ys l in unlinked_next f y x (sym p) nz ∙ q
  next_behind x (w ∷ xs) ys nz a l =
      let (p, q) = Linked-prev f x (f x).next (w ∷ xs) y ys l in
      let (b, c, d) = Absent-parts x (w ∷ xs) y ys a in
      let not_last : x ≢ (f y).prev = λ e. Absent-last x w xs b.0 b.1 (e ∙ p) in
      let not_first : x ≢ (f y).next = λ e. Absent-first x ys nz d (e ∙ q) in
      ap (λ (v : SegmentNode). v.next) (unlinked_other f y x not_last not_first) ∙ l.0

  unlinked-Linked :
      (before at : ℕ) (xs ys : List ℕ)
      → (before ≡ 0) ⊎ (Absent before (xs ++ y ∷ ys))
      → Distinct (xs ++ y ∷ ys)
      → Linked f before at (xs ++ y ∷ ys)
      → Linked (unlinked f y) before (first_of (xs ++ ys)) (xs ++ ys)
  unlinked-Linked before at [] [] away d l = refl
  unlinked-Linked before at [] (z ∷ zs) away d (e, nz, p, (e2, nz2, p2, l)) =
      unlinked_head f before y z zs p e2 nz2 (tail_away away) d.1.0
        (subst (λ k. Linked f z k zs) refl l)
    where
      tail_away :
          (before ≡ 0) ⊎ (Absent before (y ∷ z ∷ zs)) → (before ≡ 0) ⊎ (Absent before (z ∷ zs))
      tail_away (inl h) = inl h
      tail_away (inr (h, a)) = inr a
  unlinked-Linked before at (x ∷ xs) ys away (a, d) (e, nz, p, l) =
      let (b, c) = Linked-prev f x (f x).next xs y ys l in
      let (s, t, u) = Absent-parts x xs y ys a in
      let not_first : x ≢ (f y).next = λ q. Absent-first x ys nz u (q ∙ c) in
      let rest = unlinked-Linked x (f x).next xs ys (inr a) d l in
      (
        refl,
        nz,
        unlinked_prev f y x not_first ∙ p,
        subst (λ k. Linked (unlinked f y) x k (xs ++ ys)) (sym (next_behind x xs ys nz a l)) rest,
      )

Distinct-without :
    (xs : List ℕ) (y : ℕ) (ys : List ℕ) → Distinct (xs ++ y ∷ ys) → Distinct (xs ++ ys)
Distinct-without [] y ys d = d.1
Distinct-without (x ∷ xs) y ys (a, d) =
    let (s, t, u) = Absent-parts x xs y ys a in
    (Absent-join x xs ys s u, Distinct-without xs y ys d)

Distinct-Absent :
    (xs : List ℕ) (y : ℕ) (ys : List ℕ) → Distinct (xs ++ y ∷ ys) → Absent y (xs ++ ys)
Distinct-Absent [] y ys d = d.0
Distinct-Absent (x ∷ xs) y ys (a, d) =
    let (s, t, u) = Absent-parts x xs y ys a in ((λ e. t (sym e)), Distinct-Absent xs y ys d)

AllLive-without :
    (live : ℕ → Bool) (xs : List ℕ) (y : ℕ) (ys : List ℕ)
    → AllLive live (xs ++ y ∷ ys)
    → AllLive live (xs ++ ys) × (live y ≡ true)
AllLive-without live [] y ys (e, l) = (l, e)
AllLive-without live (x ∷ xs) y ys (e, l) =
    let (m, h) = AllLive-without live xs y ys l in ((e, m), h)

-- The last node before, and the first behind, are null or of segments that are allocated.
last-live :
    (live : ℕ → Bool) (before : ℕ) (xs ys : List ℕ)
    → (before ≡ 0) ⊎ (live before ≡ true)
    → AllLive live (xs ++ ys)
    → (last_of before xs ≡ 0) ⊎ (live (last_of before xs) ≡ true)
last-live live before [] ys h l = h
last-live live before (x ∷ xs) ys h (e, l) = last-live live x xs ys (inr e) l

first-live :
    (live : ℕ → Bool) (xs : List ℕ)
    → AllLive live xs
    → (first_of xs ≡ 0) ⊎ (live (first_of xs) ≡ true)
first-live live [] l = inl refl
first-live live (x ∷ xs) l = inr l.0

AllLive-tail : (live : ℕ → Bool) (xs ys : List ℕ) → AllLive live (xs ++ ys) → AllLive live ys
AllLive-tail live [] ys l = l
AllLive-tail live (x ∷ xs) ys l = AllLive-tail live xs ys l.1

-- The region without the segment at `y`
abbrev freed : SharedRegion → ℕ → ℕ → SharedRegion
freed r y first = record r {
  allocs = first;
  nodes = unlinked r.nodes y;
  live = update r.live y false;
}

freed_runs :
    (r : SharedRegion) (y first : ℕ)
    → r.live y ≡ true
    → ((r.nodes y).prev ≡ 0) ⊎ (r.live (r.nodes y).prev ≡ true)
    → ((r.nodes y).next ≡ 0) ⊎ (r.live (r.nodes y).next ≡ true)
    → first ≡ (if (r.nodes y).prev == 0 then (r.nodes y).next else r.allocs)
    → tm_free r (y + node_size) ≡ done (freed r y first, true)
unfolding tm_free
freed_runs r y first live p n e =
    let back : y + node_size - node_size ≡ y = omega arith in rw back (ground arith)

last-nonzero :
    (f : ℕ → SegmentNode) (x at : ℕ) (xs ys : List ℕ)
    → x ≢ 0
    → Linked f x at (xs ++ ys)
    → last_of x xs ≢ 0
last-nonzero f x at [] ys nz l = nz
last-nonzero f x at (w ∷ xs) ys nz (e, wz, p, l) = last-nonzero f w (f w).next xs ys wz l

new_first :
    (f : ℕ → SegmentNode) (at : ℕ) (xs : List ℕ) (y : ℕ) (ys : List ℕ)
    → Linked f 0 at (xs ++ y ∷ ys)
    → first_of (xs ++ ys) ≡ (if (f y).prev == 0 then (f y).next else at)
new_first f at [] y ys l = let (p, q) = Linked-prev f 0 at [] y ys l in ground arith
new_first f at (x ∷ xs) y ys (e, nz, b, l) =
    let (p, q) = Linked-prev f x (f x).next xs y ys l in
    let some_before = last-nonzero f x (f x).next xs (y ∷ ys) nz l in ground arith

-- The call that frees a segment of the region's list returns, with a region whose list is the others in
-- their order, and the segment's node no longer allocated.
pub tm_free-Segments :
    (r : SharedRegion) (xs : List ℕ) (y : ℕ) (ys : List ℕ)
    → Segments r (xs ++ y ∷ ys)
    → (r' : SharedRegion) × (tm_free r (y + node_size) ≡ done (r', true))
      × Segments r' (xs ++ ys)
      × (r'.live y ≡ false)
tm_free-Segments r xs y ys s =
    let (p, q) = Linked-prev r.nodes 0 r.allocs xs y ys s.linked in
    let (others, mine) = AllLive-without r.live xs y ys s.all_live in
    let before = last-live r.live 0 xs ys (inl refl) others in
    let behind = first-live r.live ys (AllLive-tail r.live xs ys others) in
    let first = first_of (xs ++ ys) in
    (
      freed r y first,
      freed_runs r y first mine (subst (λ k. (k ≡ 0) ⊎ (r.live k ≡ true)) (sym p) before)
          (subst (λ k. (k ≡ 0) ⊎ (r.live k ≡ true)) (sym q) behind)
          (new_first r.nodes r.allocs xs y ys s.linked),
      record {
        linked = unlinked-Linked r.nodes y 0 r.allocs xs ys (inl refl) s.distinct s.linked;
        distinct = Distinct-without xs y ys s.distinct;
        all_live =
            AllLive-update r.live y false (xs ++ ys) (Distinct-Absent xs y ys s.distinct) others;
      },
      ground arith,
    )
