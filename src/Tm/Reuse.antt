-- ===== src/Tm/Reuse.antt =====
-- What becomes of a deregistered segment over several epochs. The commit does not reset `deregistered`, so
-- it pushes the index again at the end of every epoch until `tm_alloc` takes it.
use cs_453_concurrent_algori.Common.{
  ℕ, zero, suc, ◌+◌, ◌≤◌, ◌<◌, ◌≡◌, refl, true, List, [], ◌∷◌, ◌++◌, Option, some, Outcome, done,
  ◌>>=◌, arith, subst, ap, ◌∙◌,
}
use cs_453_concurrent_algori.Common.Int.{ℤ, pos}
use cs_453_concurrent_algori.Stack.{max_stack_size}
use cs_453_concurrent_algori.Stack.Laws.{IsStack, length}
use cs_453_concurrent_algori.Address.{get_virt_addr}
use cs_453_concurrent_algori.Segment.{Segment}
use cs_453_concurrent_algori.Segment.Init.{all_given}
use cs_453_concurrent_algori.Region.{Region}
use cs_453_concurrent_algori.Epoch.{commit_transcations_in_epoch}
use cs_453_concurrent_algori.Epoch.Committed.{
  first_changed, committed, committed_segments, deregistered_below, CanCommit, commit_runs,
}
use cs_453_concurrent_algori.Tm.{AllocMemory, tm_alloc}
use cs_453_concurrent_algori.Tm.Alloc.{CanAlloc, tm_alloc_again}

deregistered_below-committed :
    (n : ℕ) (f : ℕ → Segment) (k : ℕ)
    → deregistered_below (first_changed committed n f) k ≡ deregistered_below f k
deregistered_below-committed n f zero = refl
deregistered_below-committed n f (suc k) = ground (arith, deregistered_below-committed n f k)

head-lt :
    (f : ℕ → Segment) (n i : ℕ) (rest : List ℤ) → deregistered_below f n ≡ pos i ∷ rest → i < n
head-lt f zero i rest e = absurd (cc)
head-lt f (suc k) i rest e = ground (arith, head-lt f k i rest)

-- A region whose deregistered segments are `xs`, with `free` on the stack
record Ready (r : Region) (xs free : List ℤ) : Type 0 where
  can_commit : CanCommit r free
  can_alloc : CanAlloc r
  gone : deregistered_below r.segments r.n_segments ≡ xs

-- A commit puts the indices of the deregistered segments on the stack, and they stay deregistered.
commit_again :
    (r : Region) (xs free : List ℤ)
    → Ready r xs free
    → length xs + length (xs ++ free) ≤ max_stack_size
    → (r1 : Region) × (commit_transcations_in_epoch r ≡ done r1)
      × Ready r1 xs (xs ++ free)
      × (r1.n_segments ≡ r.n_segments)
commit_again r xs free ready room =
    let can = ready.can_commit in
    let (st, run, stack) = commit_runs r free can in
    let same = deregistered_below-committed r.n_segments r.segments r.n_segments ∙ ready.gone in
    (
      committed_segments r.n_segments r st,
      run,
      record {
        can_commit = record {
          fits = can.fits;
          allocated = λ i h. ground (arith, can.allocated i h);
          stack = subst (λ ys. IsStack st (ys ++ free)) ready.gone stack;
          room = omega (arith, room, ap length same);
        };
        can_alloc = record {
          fits = can.fits;
          initial = ready.can_alloc.initial;
          global = ready.can_alloc.global;
          aligned = ready.can_alloc.aligned;
        };
        gone = same;
      },
      refl,
    )

-- Two epochs end, and two segments are allocated: the addresses
pub two_epochs_then_allocs : AllocMemory → ℕ → Region → Outcome (Option ℕ × Option ℕ)
two_epochs_then_allocs mem size r = commit_transcations_in_epoch r >>= λ r1.
    commit_transcations_in_epoch r1 >>= λ r2. tm_alloc mem r2 size >>= λ (r3, status, first).
    tm_alloc mem r3 size >>= λ (r4, status2, second). done (first, second)

-- Where one segment is deregistered, no index is free and nothing is allocated for two epochs, the next
-- two allocations return the same address: that of the segment.
pub double_allocation :
    (mem : AllocMemory) (size i : ℕ) (r : Region)
    → CanCommit r []
    → CanAlloc r
    → deregistered_below r.segments r.n_segments ≡ pos i ∷ []
    → all_given mem.segment ≡ true
    → two_epochs_then_allocs mem size r ≡ done (some (get_virt_addr i), some (get_virt_addr i))
unfolding two_epochs_then_allocs
double_allocation mem size i r can alloc one given =
    let xs = pos i ∷ [] in
    let ready : Ready r xs [] = record { can_commit = can; can_alloc = alloc; gone = one } in
    let (r1, run1, ready1, n1) = commit_again r xs [] ready (omega arith) in
    let (r2, run2, ready2, n2) = commit_again r1 xs xs ready1 (omega arith) in
    let inside : i < r2.n_segments = head-lt r2.segments r2.n_segments i [] ready2.gone in
    let (r3, run3, n3, b3, o3, stack3, alloc3) =
      tm_alloc_again mem r2 size i xs ready2.can_alloc ready2.can_commit.stack (omega arith) inside
        given in
    let (r4, run4, n4, b4, o4, stack4, alloc4) =
      tm_alloc_again mem r3 size i [] alloc3 stack3 (omega arith) (rw n3 inside) given in
    rw run1 (rw run2 (rw run3 (rw run4)))
