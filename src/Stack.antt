-- ===== src/Stack.antt =====
-- 275085/stack.c and stack.h: a bounded stack of `int` in an array.
pub mod Laws
use cs_453_concurrent_algori.Common.{ℕ, Outcome, done, undefined, ◌>>=◌, ltb, if◌then◌else◌, update}
use cs_453_concurrent_algori.Common.Int.{ℤ, pos, negsuc, is_minus_one, add_one, sub_one}

abbrev pub max_stack_size : ℕ
max_stack_size = 0x10000

-- `stack_t`
pub record Stack : Type 0 where
  pub vals : ℕ → ℤ
  pub top : ℤ

-- `vals[i]` exists for 0 ≤ i < MAX_STACK_SIZE.
unfoldable pub stack_slot : ℤ → Outcome ℕ
stack_slot (pos i) = if ltb i max_stack_size then done i else undefined
stack_slot (negsuc i) = undefined

unfoldable pub pop : Stack → Outcome (Stack × ℤ)
unfolding stack_slot
pop s =
    if is_minus_one s.top
    then done (s, negsuc 0)
    else stack_slot s.top >>= λ i. done (record s { top = sub_one s.top }, s.vals i)

unfoldable pub push : Stack → ℤ → Outcome (Stack × ℤ)
unfolding stack_slot
push s idx =
    let top = add_one s.top in
    stack_slot top >>= λ i. done (record { vals = update s.vals i idx; top = top }, pos 0)
