-- ===== src/Memory/Slices.antt =====
-- The bytes of a block from an offset on, as a list.
use native.Mathlib.Nat.{add-zero, add-suc, suc-add}
use cs_453_concurrent_algori.Common.{
  ℕ, zero, suc, ◌+◌, ◌-◌, ◌*◌, ◌≤◌, ◌<◌, ◌≡◌, ◌≢◌, ◌⊎◌, inl, inr, refl, arith, List, [], ◌∷◌,
  dec_lt,
}
use cs_453_concurrent_algori.Memory.{Bytes, memcpy, memcpy_inside, memcpy_outside}

abbrev pub slice : Bytes → ℕ → ℕ → List ℕ
slice b from zero = []
slice b from (suc n) = b from ∷ slice b (suc from) n

pub slice_ext :
    (b c : Bytes) (i j n : ℕ)
    → ((k : ℕ) → k < n → b (i + k) ≡ c (j + k))
    → slice b i n ≡ slice c j n
slice_ext b c i j zero h = refl
slice_ext b c i j (suc n) h =
    let first : b i ≡ c j = rw (add-zero i, add-zero j) at (h 0 (omega arith)) in
    let rest : slice b (suc i) n ≡ slice c (suc j) n = slice_ext b c (suc i) (suc j) n (λ k p.
      rw (suc-add i k, suc-add j k, ← add-suc i k, ← add-suc j k) (h (suc k) (omega arith))) in
    cc

pub slice-memcpy_self :
    (dst : Bytes) (to : ℕ) (src : Bytes) (from n : ℕ)
    → slice (memcpy dst to src from n) to n ≡ slice src from n
slice-memcpy_self dst to src from n =
    slice_ext (memcpy dst to src from n) src to from n (memcpy_inside dst to src from n)

pub slice-memcpy_apart :
    (dst : Bytes) (to : ℕ) (src : Bytes) (from n at m : ℕ)
    → (at + m ≤ to) ⊎ (to + n ≤ at)
    → slice (memcpy dst to src from n) at m ≡ slice dst at m
slice-memcpy_apart dst to src from n at m h =
    slice_ext (memcpy dst to src from n) dst at at m
      (λ k p. memcpy_outside dst to src from n (at + k) (omega arith))

word_before : (i j a : ℕ) → i < j → i * a + a ≤ j * a
word_before i j a h = let (d, e) = split in rw e (omega arith)
  where
    split : (d : ℕ) × (j ≡ i + 1 + d)
    split = (j - (i + 1), omega arith)

-- Two words of an array do not overlap.
pub words_apart : (i j a : ℕ) → i ≢ j → (i * a + a ≤ j * a) ⊎ (j * a + a ≤ i * a)
words_apart i j a h = elim (dec_lt i j) [
  | yes p ↦ inl (word_before i j a p)
  | no p ↦ inr (word_before j i a (omega arith))
]
