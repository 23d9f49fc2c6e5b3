-- ===== src/Transactional/Promise.antt =====
-- What a library promises of its transactions, where one thread uses it.
use cs_453_concurrent_algori.Common.{ℕ, ◌≡◌, ◌≢◌, ◌<◌, ◌%◌, true, false, update}
use cs_453_concurrent_algori.Word.{success_alloc, nomem_alloc}
use cs_453_concurrent_algori.Reference.{invalid_tx}
use cs_453_concurrent_algori.Transactional.{Library, Mode, read_write, is_read_only}
use cs_453_concurrent_algori.Transactional.Atomic.{
  Memory, granted, without, word, IsWord, IsBase, Fresh,
}

-- The interface for transactions of one mode, where no other thread is in one. The library's states are
-- related to what they mean: no transaction is open and `c` is the committed memory (`Idle`), or the
-- transaction `tx` is and sees the memory `m` (`Open`). A call that keeps to the interface either does what
-- it says, or aborts the transaction, and then the committed memory is as it was. Which address a new
-- segment gets, and whether there is memory for it, is left to the library in every call.
pub record Lawful {S : Type 0} (lib : Library S) (mode : Mode) : Type 1 where
  pub Idle : S → Memory → Type 0
  pub Open : S → ℕ → Memory → Memory → Type 0
  pub begin_done :
      (s s1 : S) (tx : ℕ) (c : Memory)
      → Idle s c
      → lib.lib_begin s (is_read_only mode) ≡ (s1, tx)
      → tx ≢ invalid_tx
      → Open s1 tx c c
  pub begin_refused :
      (s s1 : S) (c : Memory)
      → Idle s c
      → lib.lib_begin s (is_read_only mode) ≡ (s1, invalid_tx)
      → Idle s1 c
  pub read_done :
      (s s1 : S) (tx source v : ℕ) (m c : Memory)
      → Open s tx m c
      → IsWord m source
      → lib.lib_read s tx source word ≡ (s1, true, v)
      → (v ≡ m.content source) × Open s1 tx m c
  pub read_refused :
      (s s1 : S) (tx source v : ℕ) (m c : Memory)
      → Open s tx m c
      → IsWord m source
      → lib.lib_read s tx source word ≡ (s1, false, v)
      → Idle s1 c
  pub write_done :
      (s s1 : S) (tx content target : ℕ) (m c : Memory)
      → mode ≡ read_write
      → Open s tx m c
      → IsWord m target
      → lib.lib_write s tx content word target ≡ (s1, true)
      → Open s1 tx (record m { content = update m.content target content }) c
  pub write_refused :
      (s s1 : S) (tx content target : ℕ) (m c : Memory)
      → mode ≡ read_write
      → Open s tx m c
      → IsWord m target
      → lib.lib_write s tx content word target ≡ (s1, false)
      → Idle s1 c
  pub alloc_done :
      (s s1 : S) (tx size a : ℕ) (m c : Memory)
      → mode ≡ read_write
      → Open s tx m c
      → 0 < size
      → size % word ≡ 0
      → lib.lib_alloc s tx size ≡ (s1, success_alloc, a)
      → Fresh m a size × Open s1 tx (granted m a size) c
  pub alloc_nomem :
      (s s1 : S) (tx size a : ℕ) (m c : Memory)
      → mode ≡ read_write
      → Open s tx m c
      → 0 < size
      → size % word ≡ 0
      → lib.lib_alloc s tx size ≡ (s1, nomem_alloc, a)
      → Open s1 tx m c
  pub alloc_refused :
      (s s1 : S) (tx size status a : ℕ) (m c : Memory)
      → mode ≡ read_write
      → Open s tx m c
      → 0 < size
      → size % word ≡ 0
      → status ≢ success_alloc
      → status ≢ nomem_alloc
      → lib.lib_alloc s tx size ≡ (s1, status, a)
      → Idle s1 c
  pub free_done :
      (s s1 : S) (tx target : ℕ) (m c : Memory)
      → mode ≡ read_write
      → Open s tx m c
      → IsBase target m.blocks
      → lib.lib_free s tx target ≡ (s1, true)
      → Open s1 tx (record m { blocks = without target m.blocks }) c
  pub free_refused :
      (s s1 : S) (tx target : ℕ) (m c : Memory)
      → mode ≡ read_write
      → Open s tx m c
      → IsBase target m.blocks
      → lib.lib_free s tx target ≡ (s1, false)
      → Idle s1 c
  pub end_done :
      (s s1 : S) (tx : ℕ) (m c : Memory) → Open s tx m c → lib.lib_end s tx ≡ (s1, true) → Idle s1 m
  pub end_refused :
      (s s1 : S) (tx : ℕ) (m c : Memory)
      → Open s tx m c
      → lib.lib_end s tx ≡ (s1, false)
      → Idle s1 c
