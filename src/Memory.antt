-- ===== src/Memory.antt =====
-- Blocks of bytes and `memcpy`. Which bytes of a block exist is the business of the code that copies.
pub mod Slices
use cs_453_concurrent_algori.Common.{
  ℕ, ◌+◌, ◌-◌, ◌≤◌, ◌<◌, ◌≡◌, ◌&&◌, leb, ltb, if◌then◌else◌, arith, ◌⊎◌, ap,
}

-- The byte at each offset of a block.
abbrev pub Bytes : Type 0
Bytes = ℕ → ℕ

-- What `calloc` returns.
abbrev pub zeroed : Bytes
zeroed _ = 0

-- `memcpy(dst + to, src + from, n)`
unfoldable pub memcpy : Bytes → ℕ → Bytes → ℕ → ℕ → Bytes
memcpy dst to src from n a = if leb to a && ltb a (to + n) then src (from + (a - to)) else dst a

pub memcpy_inside :
    (dst : Bytes) (to : ℕ) (src : Bytes) (from n k : ℕ)
    → k < n
    → memcpy dst to src from n (to + k) ≡ src (from + k)
unfolding memcpy
memcpy_inside dst to src from n k h =
    let e : to + k - to ≡ k = omega arith in ground (arith, ap src (ap (λ (t : ℕ). from + t) e))

pub memcpy_outside :
    (dst : Bytes) (to : ℕ) (src : Bytes) (from n a : ℕ)
    → (a < to) ⊎ (to + n ≤ a)
    → memcpy dst to src from n a ≡ dst a
unfolding memcpy
memcpy_outside dst to src from n a h = ground arith
