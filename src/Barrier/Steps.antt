-- ===== src/Barrier/Steps.antt =====
-- Each atomic operation of a thread at a barrier, and the phase behind it.
use cs_453_concurrent_algori.Common.{
  ℕ, suc, ◌-◌, ◌<◌, ◌≡◌, ◌≢◌, ◌∙◌, ◌⊎◌, inl, inr, refl, sym, ap, subst, Bool, true, false, ◌==◌,
  if◌then◌else◌, update, update_ne, arith,
}
use cs_453_concurrent_algori.Common.Counting.{total, total-update, total_zero, weight-le-total}
use cs_453_concurrent_algori.Barrier.{
  BarrierMode, enter, leave, Visitor, before, lets_leave, waits_leave, may_leave, lets_enter,
  waits_enter,
}
use cs_453_concurrent_algori.Barrier.Phases.{
  is_inside, is_last, is_last_out, Coming, Going, Phase, coming, going, all_inside, changed_all,
}

module _ (n step : ℕ) (w : ℕ → Visitor) (i k : ℕ) (lt : i < n)
    (counted : step ≡ total is_inside n w) where
  pub comes-Phase :
      {md : BarrierMode} (last : Bool)
      → (suc step == n) ≡ last
      → w i ≡ before k
      → Phase n step w md
      → Phase n (suc step) (update w i (if last then lets_leave k else waits_leave k)) md
  comes-Phase last h e (going c all q) = absurd (subst (Going c) e (all i lt))
  comes-Phase last h e (coming c all (inr (one, full))) = absurd (
      let at_i = all_inside n w i lt (sym counted ∙ full) in
      let not_in : is_inside (w i) ≡ 0 = ap is_inside e in omega arith)
  comes-Phase true h e (coming c all (inl (none_last, room))) =
      let t = total-update is_last n w i (lets_leave k) lt in
      let was : is_last (w i) ≡ 0 = ap is_last e in
      coming c
        (changed_all (Coming c) n w i (lets_leave k) (subst (Coming c) e (all i lt))
          (λ j p r. all j p))
        (inr (omega arith, ground arith))
  comes-Phase false h e (coming c all (inl (none_last, room))) =
      let t = total-update is_last n w i (waits_leave k) lt in
      let was : is_last (w i) ≡ 0 = ap is_last e in
      coming c
        (changed_all (Coming c) n w i (waits_leave k) (subst (Coming c) e (all i lt))
          (λ j p r. all j p))
        (inl (omega arith, ground arith))

  -- One that is inside and not the last waits.
  waiting : (c : ℕ) (v : Visitor) → Coming c v → is_inside v ≡ 1 → is_last v ≡ 0 → Going c v
  waiting c (before j) a x y = absurd (ground arith)
  waiting c (lets_leave j) a x y = absurd (ground arith)
  waiting c (waits_leave j) a x y = a
  waiting c (may_leave j) a x y = absurd a
  waiting c (lets_enter j) a x y = absurd a
  waiting c (waits_enter j) a x y = absurd (ground arith)

  coming-no_last_out : (c : ℕ) (v : Visitor) → Coming c v → is_last_out v ≡ 0
  coming-no_last_out c (before j) a = refl
  coming-no_last_out c (lets_leave j) a = refl
  coming-no_last_out c (waits_leave j) a = refl
  coming-no_last_out c (may_leave j) a = refl
  coming-no_last_out c (lets_enter j) a = absurd a
  coming-no_last_out c (waits_enter j) a = refl

  pub stores_leave-Phase :
      {md : BarrierMode}
      → w i ≡ lets_leave k
      → Phase n step w md
      → Phase n step (update w i (may_leave k)) leave
  stores_leave-Phase e (going c all q) = absurd (subst (Going c) e (all i lt))
  stores_leave-Phase e (coming c all (inl (none_last, room))) = absurd (
      let at_i = weight-le-total is_last n w i lt in
      let last : is_last (w i) ≡ 1 = ap is_last e in omega arith)
  stores_leave-Phase e (coming c all (inr (one, full))) =
      let t = total-update is_last n w i (may_leave k) lt in
      let last : is_last (w i) ≡ 1 = ap is_last e in
      let other = λ (j : ℕ) (p : j < n) (r : j ≢ i).
        let at_j = weight-le-total is_last n (update w i (may_leave k)) j p in
        let same : is_last (update w i (may_leave k) j) ≡ is_last (w j) =
          ap is_last (update_ne w i j (may_leave k) r) in
        let zero_j : is_last (w j) ≡ 0 = omega arith in zero_j in
      let o = total-update is_last_out n w i (may_leave k) lt in
      let no_out = total_zero is_last_out n w (λ j p. coming-no_last_out c (w j) (all j p)) in
      going c
        (changed_all (Going c) n w i (may_leave k) (subst (Coming c) e (all i lt)) (λ j p r.
          waiting c (w j) (all j p) (all_inside n w j p (sym counted ∙ full)) (other j p r)))
        (inl (omega arith, omega arith))

  pub sees_leave-Phase :
      {md : BarrierMode}
      → w i ≡ waits_leave k
      → md ≡ leave
      → Phase n step w md
      → Phase n step (update w i (may_leave k)) md
  sees_leave-Phase e h (coming c all q) = absurd (ground arith)
  sees_leave-Phase e h (going c all q) =
      let o = total-update is_last_out n w i (may_leave k) lt in
      let was : is_last_out (w i) ≡ 0 = ap is_last_out e in
      let same : total is_last_out n (update w i (may_leave k)) ≡ total is_last_out n w =
        omega arith in
      going c
        (changed_all (Going c) n w i (may_leave k) (subst (Going c) e (all i lt))
          (λ j p r. all j p))
        (subst (λ t. ((t ≡ 0) × (0 < step)) ⊎ ((t ≡ 1) × (step ≡ 0))) (sym same) q)

  pub goes-Phase :
      {md : BarrierMode} (last : Bool)
      → (step - 1 == 0) ≡ last
      → w i ≡ may_leave k
      → Phase n step w md
      → Phase n (step - 1) (update w i (if last then lets_enter k else waits_enter k)) md
  goes-Phase last h e (coming c all q) = absurd (subst (Coming c) e (all i lt))
  goes-Phase last h e (going c all (inr (one, none_in))) = absurd (
      let at_i = weight-le-total is_inside n w i lt in
      let is_in : is_inside (w i) ≡ 1 = ap is_inside e in omega arith)
  goes-Phase true h e (going c all (inl (none_out, some_in))) =
      let o = total-update is_last_out n w i (lets_enter k) lt in
      let was : is_last_out (w i) ≡ 0 = ap is_last_out e in
      going c
        (changed_all (Going c) n w i (lets_enter k) (subst (Going c) e (all i lt))
          (λ j p r. all j p))
        (inr (omega arith, ground arith))
  goes-Phase false h e (going c all (inl (none_out, some_in))) =
      let o = total-update is_last_out n w i (waits_enter k) lt in
      let was : is_last_out (w i) ≡ 0 = ap is_last_out e in
      going c
        (changed_all (Going c) n w i (waits_enter k) (subst (Going c) e (all i lt))
          (λ j p r. all j p))
        (inl (omega arith, ground arith))

  -- One that has gone and was not the last waits.
  gone : (c : ℕ) (v : Visitor) → Going c v → is_inside v ≡ 0 → is_last_out v ≡ 0 → Coming (suc c) v
  gone c (before j) a x y = absurd a
  gone c (lets_leave j) a x y = absurd a
  gone c (waits_leave j) a x y = absurd (ground arith)
  gone c (may_leave j) a x y = absurd (ground arith)
  gone c (lets_enter j) a x y = absurd (ground arith)
  gone c (waits_enter j) a x y = ap suc a

  going-no_last : (c : ℕ) (v : Visitor) → Going c v → is_last v ≡ 0
  going-no_last c (before j) a = refl
  going-no_last c (lets_leave j) a = absurd a
  going-no_last c (waits_leave j) a = refl
  going-no_last c (may_leave j) a = refl
  going-no_last c (lets_enter j) a = refl
  going-no_last c (waits_enter j) a = refl

  pub stores_enter-Phase :
      {md : BarrierMode}
      → w i ≡ lets_enter k
      → Phase n step w md
      → Phase n step (update w i (before (suc k))) enter
  stores_enter-Phase e (coming c all q) = absurd (subst (Coming c) e (all i lt))
  stores_enter-Phase e (going c all (inl (none_out, some_in))) = absurd (
      let at_i = weight-le-total is_last_out n w i lt in
      let last : is_last_out (w i) ≡ 1 = ap is_last_out e in omega arith)
  stores_enter-Phase e (going c all (inr (one, none_in))) =
      let t = total-update is_last_out n w i (before (suc k)) lt in
      let last : is_last_out (w i) ≡ 1 = ap is_last_out e in
      let other = λ (j : ℕ) (p : j < n) (r : j ≢ i).
        let at_j = weight-le-total is_last_out n (update w i (before (suc k))) j p in
        let same : is_last_out (update w i (before (suc k)) j) ≡ is_last_out (w j) =
          ap is_last_out (update_ne w i j (before (suc k)) r) in
        let zero_j : is_last_out (w j) ≡ 0 = omega arith in zero_j in
      let out = λ (j : ℕ) (p : j < n).
        let at_j = weight-le-total is_inside n w j p in
        let zero_j : is_inside (w j) ≡ 0 = omega arith in zero_j in
      let o = total-update is_last n w i (before (suc k)) lt in
      let no_last = total_zero is_last n w (λ j p. going-no_last c (w j) (all j p)) in
      coming (suc c)
        (changed_all (Coming (suc c)) n w i (before (suc k)) (ap suc (subst (Going c) e (all i lt)))
          (λ j p r. gone c (w j) (all j p) (out j p) (other j p r)))
        (inl (omega arith, omega arith))

  pub sees_enter-Phase :
      {md : BarrierMode}
      → w i ≡ waits_enter k
      → md ≡ enter
      → Phase n step w md
      → Phase n step (update w i (before (suc k))) md
  sees_enter-Phase e h (going c all q) = absurd (ground arith)
  sees_enter-Phase e h (coming c all q) =
      let o = total-update is_last n w i (before (suc k)) lt in
      let was : is_last (w i) ≡ 0 = ap is_last e in
      let same : total is_last n (update w i (before (suc k))) ≡ total is_last n w = omega arith in
      coming c
        (changed_all (Coming c) n w i (before (suc k)) (subst (Coming c) e (all i lt))
          (λ j p r. all j p))
        (subst (λ t. ((t ≡ 0) × (step < n)) ⊎ ((t ≡ 1) × (step ≡ n))) (sym same) q)
