-- ===== src/Transactional/Shared.antt =====
-- grading/transactional.hpp, the classes Shared: typed access to shared memory. Every type that they are
-- used at takes one word. With `assert_mode` off, a constructor only holds the address.
use cs_453_concurrent_algori.Common.{ℕ, ◌+◌, ◌*◌, ltb, ◌==◌, if◌then◌else◌}
use cs_453_concurrent_algori.Transactional.{
  Prog, give, throw, reads, writes, allocs, frees, ◌>>=◌, ◌>>◌, assert_mode, shared_double_alloc,
  shared_double_free,
}
use cs_453_concurrent_algori.Transactional.Atomic.{word}

-- `Shared<Type>`, and the same functions of `Shared<Type*>`
abbrev pub shared_read : ℕ → Prog ℕ
shared_read address = reads address word give

abbrev pub shared_write : ℕ → ℕ → Prog (Unit {0})
shared_write address source = writes source word address (give tt)

abbrev pub after : ℕ → ℕ
after address = address + word

-- `Shared<Type*>`: `alloc` and `free`
abbrev pub shared_alloc : ℕ → ℕ → ℕ → Prog ℕ
shared_alloc type_size address size =
    (if assert_mode
      then (shared_read address >>= λ old. if old == 0 then give tt else throw shared_double_alloc)
      else give tt)
    >> (allocs (if ltb 0 size then size else type_size) give >>= λ addr.
        shared_write address addr >> give addr)

abbrev pub shared_free : ℕ → Prog (Unit {0})
shared_free address =
    (if assert_mode
      then (shared_read address >>= λ old. if old == 0 then throw shared_double_free else give tt)
      else give tt)
    >> (shared_read address >>= λ target. frees target (give tt) >> shared_write address 0)

-- `Shared<Type[]>`: the cell of an index
abbrev pub cell : ℕ → ℕ → ℕ
cell address index = address + index * word

abbrev pub array_read : ℕ → ℕ → Prog ℕ
array_read address index = reads (cell address index) word give

abbrev pub array_after : ℕ → ℕ → ℕ
array_after address length = address + length * word
