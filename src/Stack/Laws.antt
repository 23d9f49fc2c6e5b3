-- ===== src/Stack/Laws.antt =====
-- The array and its `top` implement a list with its head at the top.
use cs_453_concurrent_algori.Common.{
  ℕ, zero, suc, ◌≤◌, ◌<◌, ◌≡◌, refl, List, [], ◌∷◌, Outcome, done, undefined, arith, update,
}
use cs_453_concurrent_algori.Common.Int.{ℤ, pos, negsuc}
use cs_453_concurrent_algori.Stack.{Stack, max_stack_size, pop, push}

abbrev pub length : List ℤ → ℕ
length [] = 0
length (x ∷ xs) = suc (length xs)

-- `top` of a stack with that many entries
abbrev pub top_of : ℕ → ℤ
top_of zero = negsuc 0
top_of (suc n) = pos n

abbrev pub Elements : (ℕ → ℤ) → List ℤ → Type 0
Elements vals [] = Unit
Elements vals (x ∷ xs) = (vals (length xs) ≡ x) × Elements vals xs

pub record IsStack (s : Stack) (xs : List ℤ) : Type 0 where
  pub height : s.top ≡ top_of (length xs)
  pub entries : Elements s.vals xs

Elements-update :
    (vals : ℕ → ℤ) (n : ℕ) (v : ℤ) (xs : List ℤ)
    → length xs ≤ n
    → Elements vals xs
    → Elements (update vals n v) xs
Elements-update vals n v [] h e = tt
Elements-update vals n v (x ∷ xs) h e =
    (ground arith, Elements-update vals n v xs (omega arith) e.1)

pushed : Stack → ℤ → ℕ → Stack
pushed s v n = record { vals = update s.vals n v; top = pos n }

push_runs :
    (s : Stack) (n : ℕ) (v : ℤ)
    → s.top ≡ top_of n
    → n < max_stack_size
    → push s v ≡ done (pushed s v n, pos 0)
unfolding push pushed
push_runs s zero v h r = ground arith
push_runs s (suc n) v h r = ground arith

-- A push on a stack that implements a list, shorter than the capacity, returns 0 and a stack that
-- implements the list with the value at its head.
pub push-IsStack :
    (s : Stack) (xs : List ℤ) (v : ℤ)
    → IsStack s xs
    → length xs < max_stack_size
    → (s' : Stack) × (push s v ≡ done (s', pos 0)) × IsStack s' (v ∷ xs)
unfolding pushed
push-IsStack s xs v h r = (
  pushed s v (length xs),
  push_runs s (length xs) v h.height r,
  record {
    height = refl;
    entries = (ground arith, Elements-update s.vals (length xs) v xs (omega arith) h.entries);
  },
)

-- A push on a full stack writes behind the array: `push` has no test of its own.
pub push_full :
    (s : Stack) (xs : List ℤ) (v : ℤ)
    → IsStack s xs
    → length xs ≡ max_stack_size
    → push s v ≡ undefined
unfolding push
push_full s [] v h r = absurd (omega arith)
push_full s (x ∷ xs) v h r = ground arith

-- What a pop returns: -1 and the stack as it was if the list is empty, else the head of the list and a
-- stack of its tail.
abbrev pub Popped : List ℤ → Stack → Outcome (Stack × ℤ) → Type 0
Popped [] s r = r ≡ done (s, negsuc 0)
Popped (x ∷ xs) s r = (s' : Stack) × (r ≡ done (s', x)) × IsStack s' xs

-- A pop of a stack that implements a list within the capacity returns -1 and the stack as it was if the
-- list is empty, else the head of the list and a stack that implements its tail.
pub pop-IsStack :
    (s : Stack) (xs : List ℤ) → IsStack s xs → length xs ≤ max_stack_size → Popped xs s (pop s)
unfolding pop
pop-IsStack s [] h r = ground arith
pop-IsStack s (x ∷ []) h r =
    (record s { top = negsuc 0 }, ground arith, record { height = refl; entries = tt })
pop-IsStack s (x ∷ y ∷ xs) h r = (
  record s { top = pos (length xs) },
  ground arith,
  record { height = refl; entries = h.entries.1 },
)
