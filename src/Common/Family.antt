-- ===== src/Common/Family.antt =====
-- Arrays as families `ℕ → A`: a write at one index, and the number of indices with a property.
use Prim.Native.Nat.{ℕ}
use mathlib.Core.Path.{◌≡◌}
use mathlib.Core.Logic.{◌≢◌}
use native.Mathlib.Omega.{arith}
use cs_453_concurrent_algori.Common.Tests.{◌==◌, if◌then◌else◌}

-- `f[i] = a`
abbrev pub update {ℓ} : {A : Type ℓ} → (ℕ → A) → ℕ → A → ℕ → A
update f i a j = if j == i then a else f j

pub update_self {ℓ} : {A : Type ℓ} (f : ℕ → A) (i : ℕ) (a : A) → update f i a i ≡ a
update_self f i a = ground arith

pub update_ne {ℓ} : {A : Type ℓ} (f : ℕ → A) (i j : ℕ) (a : A) → j ≢ i → update f i a j ≡ f j
update_ne f i j a h = ground arith
