-- ===== src/Transactional/Atomic.antt =====
-- What a transaction's closure does on its own, to a memory of words.
use cs_453_concurrent_algori.Common.{
  ℕ, zero, suc, ◌+◌, ◌%◌, ◌≤◌, ◌<◌, ◌≡◌, ◌≢◌, ◌⊎◌, inl, inr, sym, ap, subst, refl, ◌∙◌, false, ◌==◌,
  if◌then◌else◌, update, arith, List, [], ◌∷◌, Option, none, some,
}
use cs_453_concurrent_algori.Transactional.{
  Prog, give, throw, diverge, reads, writes, allocs, frees, Exception, Result, value, thrown,
  endless, transaction_alloc, transaction_retry, is_retry, Mode, read_write,
}

-- A segment of shared memory: where it is, and its number of bytes
pub record Block : Type 0 where
  pub base : ℕ
  pub size : ℕ

-- The word at each address, the first segment, and those that were allocated and not freed
pub record Memory : Type 0 where
  pub content : ℕ → ℕ
  pub first : Block
  pub blocks : List Block

abbrev pub without : ℕ → List Block → List Block
without a [] = []
without a (b ∷ bs) = if b.base == a then without a bs else b ∷ without a bs

-- A segment is allocated with every byte zero.
abbrev pub zero_from : (ℕ → ℕ) → ℕ → ℕ → ℕ → ℕ
zero_from f base zero a = f a
zero_from f base (suc n) a = if a == base + n then 0 else zero_from f base n a

abbrev pub granted : Memory → ℕ → ℕ → Memory
granted m base size = record m {
  content = zero_from m.content base size;
  blocks = record { base = base; size = size } ∷ m.blocks;
}

-- Where the next segment of that size is put, if there is memory for it
abbrev pub Placement : Type 0
Placement = Memory → ℕ → Option ℕ

-- The closure runs with nothing between its operations.
unfoldable pub exec : {A : Type 0} → Placement → Memory → Prog A → Memory × Result A
exec place m (give a) = (m, value a)
exec place m (throw e) = (m, thrown e)
exec place m diverge = (m, endless)
exec place m (reads source size k) = exec place m (k (m.content source))
exec place m (writes content size target p) =
    exec place (record m { content = update m.content target content }) p
exec {A} place m (allocs size k) = elim (place m size) as (λ _. Memory × Result A) [
  | some a ↦ exec place (granted m a size) (k a)
  | none ↦ (m, thrown transaction_alloc)
]
exec place m (frees target p) = exec place (record m { blocks = without target m.blocks }) p

pub exec_allocs :
    {A : Type 0} (place : Placement) (size : ℕ) (k : ℕ → Prog A) (m : Memory) (a : ℕ)
    → place m size ≡ some a
    → exec place m (allocs size k) ≡ exec place (granted m a size) (k a)
unfolding exec
exec_allocs place size k m a e = ground arith

pub exec_allocs_nomem :
    {A : Type 0} (place : Placement) (size : ℕ) (k : ℕ → Prog A) (m : Memory)
    → place m size ≡ none
    → exec place m (allocs size k) ≡ (m, thrown transaction_alloc)
unfolding exec
exec_allocs_nomem place size k m e = ground arith

-- The size of a word
abbrev pub word : ℕ
word = 8

-- The word at `a` is in a segment.
abbrev pub Holds : ℕ → Block → Type 0
Holds a b = (b.base ≤ a) × (a + word ≤ b.base + b.size)

abbrev pub HeldBy : ℕ → List Block → Type 0
HeldBy a [] = ⊥
HeldBy a (b ∷ bs) = Holds a b ⊎ HeldBy a bs

abbrev pub IsWord : Memory → ℕ → Type 0
IsWord m a = (a % word ≡ 0) × HeldBy a (m.first ∷ m.blocks)

-- A segment that was allocated is at `a`.
abbrev pub IsBase : ℕ → List Block → Type 0
IsBase a [] = ⊥
IsBase a (b ∷ bs) = (b.base ≡ a) ⊎ IsBase a bs

-- A segment at `a` meets none of these.
abbrev pub Clear : ℕ → ℕ → List Block → Type 0
Clear a size [] = Unit
Clear a size (b ∷ bs) = ((a + size ≤ b.base) ⊎ (b.base + b.size ≤ a)) × Clear a size bs

-- Where an allocation may put a segment: at an aligned address that is not null, apart from every segment
abbrev pub Fresh : Memory → ℕ → ℕ → Type 0
Fresh m a size = (a ≢ 0) × (a % word ≡ 0) × Clear a size (m.first ∷ m.blocks)

-- How the closure may end with nothing between its operations, and the memory it may leave: an allocation
-- gives any address that a new segment may have, or finds no memory.
abbrev pub Alone : {A : Type 0} → Memory → Prog A → Memory × Result A → Type 0
Alone m (give a) o = o ≡ (m, value a)
Alone m (throw e) o = o ≡ (m, thrown e)
Alone m diverge o = o ≡ (m, endless)
Alone m (reads source size k) o = Alone m (k (m.content source)) o
Alone m (writes content size target p) o =
    Alone (record m { content = update m.content target content }) p o
Alone m (allocs size k) o =
    ((a : ℕ) × Fresh m a size × Alone (granted m a size) (k a) o)
    ⊎ (o ≡ (m, thrown transaction_alloc))
Alone m (frees target p) o = Alone (record m { blocks = without target m.blocks }) p o

-- The closure keeps to the interface: each access is to one aligned word of a segment; it changes memory in
-- a transaction that may; it allocates a positive number of words, and frees a segment that was allocated.
-- It does not itself throw the exception for a retry.
abbrev pub Fits : {A : Type 0} → Mode → Memory → Prog A → Type 0
Fits mode m (give a) = Unit
Fits mode m (throw e) = e ≢ transaction_retry
Fits mode m diverge = Unit
Fits mode m (reads source size k) =
    (size ≡ word) × IsWord m source × Fits mode m (k (m.content source))
Fits mode m (writes content size target p) =
    (mode ≡ read_write)
    × (size ≡ word)
    × IsWord m target
    × Fits mode (record m { content = update m.content target content }) p
Fits mode m (allocs size k) =
    (mode ≡ read_write)
    × (0 < size)
    × (size % word ≡ 0)
    × ((a : ℕ) → Fresh m a size → Fits mode (granted m a size) (k a))
Fits mode m (frees target p) =
    (mode ≡ read_write)
    × IsBase target m.blocks
    × Fits mode (record m { blocks = without target m.blocks }) p

-- No way of the closure ends with the exception for a retry.
pub Alone-no_retry :
    {A : Type 0} (mode : Mode) (m m' : Memory) (p : Prog A) (r : Result A)
    → Fits mode m p
    → Alone m p (m', r)
    → is_retry r ≡ false
Alone-no_retry mode m m' (give a) r f h = ap (λ o. is_retry o.1) h
Alone-no_retry {A} mode m m' (throw e) r f h = ap (λ o. is_retry o.1) h ∙ throws e f
  where
    throws : (x : Exception) → x ≢ transaction_retry → is_retry {A = A} (thrown x) ≡ false
    throws x n = ground arith
Alone-no_retry mode m m' diverge r f h = ap (λ o. is_retry o.1) h
Alone-no_retry mode m m' (reads source size k) r (a, b, f) h =
    Alone-no_retry mode m m' (k (m.content source)) r f h
Alone-no_retry mode m m' (writes content size target p) r (a, b, c, f) h =
    Alone-no_retry mode (record m { content = update m.content target content }) m' p r f h
Alone-no_retry mode m m' (allocs size k) r (a, b, c, f) (inl (at, fresh, h)) =
    Alone-no_retry mode (granted m at size) m' (k at) r (f at fresh) h
Alone-no_retry mode m m' (allocs size k) r (a, b, c, f) (inr h) = ap (λ o. is_retry o.1) h
Alone-no_retry mode m m' (frees target p) r (a, b, f) h =
    Alone-no_retry mode (record m { blocks = without target m.blocks }) m' p r f h

-- What the closure does with the placement that a function gives is one of the ways.
pub exec-Alone :
    {A : Type 0} (place : Placement) (m : Memory) (p : Prog A)
    → ((n : Memory) (size a : ℕ) → place n size ≡ some a → Fresh n a size)
    → Alone m p (exec place m p)
unfolding exec
exec-Alone place m (give a) law = refl
exec-Alone place m (throw e) law = refl
exec-Alone place m diverge law = refl
exec-Alone place m (reads source size k) law = exec-Alone place m (k (m.content source)) law
exec-Alone place m (writes content size target p) law =
    exec-Alone place (record m { content = update m.content target content }) p law
exec-Alone place m (allocs size k) law =
    answered (place m size) refl (λ a. exec-Alone place (granted m a size) (k a) law)
  where
    answered :
        (found : Option ℕ)
        → place m size ≡ found
        → ((a : ℕ) → Alone (granted m a size) (k a) (exec place (granted m a size) (k a)))
        → Alone m (allocs size k) (exec place m (allocs size k))
    answered (some a) e rest = inl (
      a,
      law m size a e,
      subst (Alone (granted m a size) (k a)) (sym (exec_allocs place size k m a e)) (rest a),
    )
    answered none e rest = inr (exec_allocs_nomem place size k m e)
exec-Alone place m (frees target p) law =
    exec-Alone place (record m { blocks = without target m.blocks }) p law
