-- ===== src/Word/WriteSkew.antt =====
-- An interleaving of two transactions in one epoch. The access set of a word holds one transaction only:
-- the second one to read a word is not recorded.
use cs_453_concurrent_algori.Common.{
  ℕ, ◌+◌, ◌≡◌, ◌≢◌, ◌∙◌, some, sym, ap, subst, true, false, refl, List, Outcome, done, ◌>>=◌, arith,
}
use cs_453_concurrent_algori.Memory.{Bytes}
use cs_453_concurrent_algori.Memory.Slices.{slice}
use cs_453_concurrent_algori.Segment.{Segment, none_tx}
use cs_453_concurrent_algori.Word.{success_alloc, word_exists, read_word, write_word}
use cs_453_concurrent_algori.Word.Spec.{
  View, view, untouched, held, dirty, spec_read, spec_write, spec_commit,
}
use cs_453_concurrent_algori.Word.Frame.{Frame}
use cs_453_concurrent_algori.Word.Reading.{Copied, read_word-Reads}
use cs_453_concurrent_algori.Word.Writing.{Stored, write_word-Writes}

-- What the proof carries from one access to the next
record Now (i j : ℕ) (seg : Segment) (a : ℕ) (vi vj : View) : Type 0 where
  exists_i : word_exists seg i ≡ true
  exists_j : word_exists seg j ≡ true
  free_i : (seg.control_lock i).mutex ≡ false
  free_j : (seg.control_lock j).mutex ≡ false
  width : seg.align ≡ a
  view_i : view seg i ≡ vi
  view_j : view seg j ≡ vj

flip : {i j : ℕ} {seg : Segment} {a : ℕ} {vi vj : View} → Now i j seg a vi vj → Now j i seg a vj vi
flip n = record {
  exists_i = n.exists_j;
  exists_j = n.exists_i;
  free_i = n.free_j;
  free_j = n.free_i;
  width = n.width;
  view_i = n.view_j;
  view_j = n.view_i;
}

kept :
    {i j : ℕ} {seg seg' : Segment} {a : ℕ} {vi vj vi' : View}
    → i ≢ j
    → Now i j seg a vi vj
    → Frame seg i seg'
    → view seg' i ≡ vi'
    → Now i j seg' a vi' vj
kept ne n f e = record {
  exists_i = rw (f.pointers, f.n_words) n.exists_i;
  exists_j = rw (f.pointers, f.n_words) n.exists_j;
  free_i = f.locks _ ∙ n.free_i;
  free_j = f.locks _ ∙ n.free_j;
  width = f.align ∙ n.width;
  view_i = e;
  view_j = f.others _ (λ q. ne (sym q)) ∙ n.view_j;
}

module _ {i j : ℕ} (apart : i ≢ j) (t : ℕ) (real : t ≢ none_tx) (block : Bytes) (at : ℕ)
    (seg : Segment) (a : ℕ) (v vj : View) (n : Now i j seg a v vj) where
  -- A read of word `i` that the abstract word grants
  read_step :
      (p : List ℕ) (v' : View)
      → spec_read t v ≡ (some p, v')
      → (seg' : Segment) × (block' : Bytes) × (read_word seg t false i block at
          ≡ done (seg', block', success_alloc))
        × (slice block' at a ≡ p)
        × Now i j seg' a v' vj
  read_step p v' e =
      let (s, b, st, run, r) = read_word-Reads seg t i block at n.exists_i n.free_i real in
      let at_v : Copied seg.align block at (some p) b st =
        subst (λ w. Copied seg.align block at w.0 b st) e
          (subst (λ w. Copied seg.align block at (spec_read t w).0 b st) n.view_i r.copied) in
      (
        s,
        b,
        rw at_v.0 at run,
        subst (λ w. slice b at w ≡ p) n.width at_v.1,
        kept apart n r.frame (r.here ∙ ap (λ w. (spec_read t w).1) n.view_i ∙ ap (λ w. w.1) e),
      )

  write_step :
      (v' : View)
      → spec_write t (slice block at a) v ≡ some v'
      → (seg' : Segment) × (write_word seg t i block at ≡ done (seg', success_alloc))
        × Now i j seg' a v' vj
  write_step v' e =
      let (s, st, run, w) = write_word-Writes seg t i block at n.exists_i n.free_i real in
      let granted : spec_write t (slice block at seg.align) (view seg i) ≡ some v' =
        subst (λ b. spec_write t (slice block at b) (view seg i) ≡ some v') (sym n.width)
          (subst (λ u. spec_write t (slice block at a) u ≡ some v') (sym n.view_i) e) in
      let at_v : Stored (view seg i) (some v') (view s i) st =
        subst (λ u. Stored (view seg i) u (view s i) st) granted w.stored in
      (s, rw at_v.0 at run, kept apart n w.frame at_v.1)

-- The six accesses: `t` reads word `i` and `u` word `j`; `t` reads `j` and `u` reads `i`; `t` writes `i`
-- and `u` writes `j`. The result is the segment, what was read, in this order, and whether all were
-- granted.
abbrev pub Six : Type 0
Six = Segment × Bytes × Bytes × Bytes × Bytes × ℕ

pub skew : Segment → ℕ → ℕ → ℕ → ℕ → Bytes → Outcome Six
skew seg t u i j new = read_word seg t false i new 0 >>= λ (s1, ti, r1).
    read_word s1 u false j new 0 >>= λ (s2, uj, r2).
    read_word s2 t false j new 0 >>= λ (s3, tj, r3).
    read_word s3 u false i new 0 >>= λ (s4, ui, r4). write_word s4 t i new 0 >>= λ (s5, r5).
    write_word s5 u j new 0 >>= λ (s6, r6). done (s6, ti, tj, ui, uj, r1 + r2 + r3 + r4 + r5 + r6)

-- From a segment where both words are untouched in this epoch, two transactions can both read both words
-- and then write one each, and none of the six accesses is refused: each has read the bytes that were
-- committed before, also of the word that the other one then wrote. The abstract
-- commit of the segment behind the accesses has both writes. The words exist, their locks are free, and
-- neither transaction is `none_tx`.
pub write_skew :
    (seg : Segment) (t u i j : ℕ) (new : Bytes)
    → i ≢ j
    → t ≢ none_tx
    → u ≢ none_tx
    → word_exists seg i ≡ true
    → word_exists seg j ≡ true
    → (seg.control_lock i).mutex ≡ false
    → (seg.control_lock j).mutex ≡ false
    → (view seg i).access ≡ untouched
    → (view seg j).access ≡ untouched
    → (seg' : Segment) × (ti : Bytes) × (tj : Bytes) × (ui : Bytes) × (uj : Bytes) × (skew seg t u i
          j new
        ≡ done (seg', ti, tj, ui, uj, success_alloc))
      × (slice ti 0 seg.align ≡ (view seg i).committed)
      × (slice tj 0 seg.align ≡ (view seg j).committed)
      × (slice ui 0 seg.align ≡ (view seg i).committed)
      × (slice uj 0 seg.align ≡ (view seg j).committed)
      × ((spec_commit (view seg' i)).committed ≡ slice new 0 seg.align)
      × ((spec_commit (view seg' j)).committed ≡ slice new 0 seg.align)
unfolding skew
write_skew seg t u i j new apart real_t real_u ei ej li lj fi fj =
    let a = seg.align in
    let ci = (view seg i).committed in
    let cj = (view seg j).committed in
    let apart' : j ≢ i = λ q. apart (sym q) in
    let free_i : View = record { committed = ci; access = untouched } in
    let free_j : View = record { committed = cj; access = untouched } in
    let held_i : View = record { committed = ci; access = held t } in
    let held_j : View = record { committed = cj; access = held u } in
    let n0 : Now i j seg a free_i free_j = record {
      exists_i = ei;
      exists_j = ej;
      free_i = li;
      free_j = lj;
      width = refl;
      view_i = λ k. record { committed = ci; access = fi k };
      view_j = λ k. record { committed = cj; access = fj k };
    } in
    let (s1, ti, e1, b1, n1) =
      read_step apart t real_t new 0 seg a free_i free_j n0 ci held_i refl in
    let (s2, uj, e2, b2, n2) =
      read_step apart' u real_u new 0 s1 a free_j held_i (flip n1) cj held_j refl in
    let (s3, tj, e3, b3, n3) =
      read_step apart' t real_t new 0 s2 a held_j held_i n2 cj held_j refl in
    let (s4, ui, e4, b4, n4) =
      read_step apart u real_u new 0 s3 a held_i held_j (flip n3) ci held_i refl in
    let w = slice new 0 a in
    let (s5, e5, n5) =
      write_step apart t real_t new 0 s4 a held_i held_j n4
        (record { committed = ci; access = dirty t w }) (ground arith) in
    let (s6, e6, n6) =
      write_step apart' u real_u new 0 s5 a held_j (record { committed = ci; access = dirty t w })
        (flip n5) (record { committed = cj; access = dirty u w }) (ground arith) in
    (
      s6,
      ti,
      tj,
      ui,
      uj,
      rw e1 (rw e2 (rw e3 (rw e4 (rw e5 (rw e6))))),
      b1,
      b3,
      b4,
      b2,
      ap (λ x. (spec_commit x).committed) n6.view_j,
      ap (λ x. (spec_commit x).committed) n6.view_i,
    )
