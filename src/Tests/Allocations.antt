-- ===== src/Tests/Allocations.antt =====
-- The theorems on `tm_alloc`, `tm_free` and the accesses to several words, at concrete regions.
use cs_453_concurrent_algori.Common.{
  ℕ, ◌+◌, ◌-◌, ◌≤◌, ◌<◌, ◌≡◌, ◌≢◌, ◌==◌, if◌then◌else◌, true, false, refl, [], Outcome, done,
  blocked, undefined, Option, none, some, arith,
}
use cs_453_concurrent_algori.Memory.{Bytes, zeroed}
use cs_453_concurrent_algori.Memory.Slices.{slice}
use cs_453_concurrent_algori.Stack.Laws.{IsStack}
use cs_453_concurrent_algori.Address.{get_virt_addr, extract_seg_id}
use cs_453_concurrent_algori.Segment.{Segment, usable, none_tx, init_segment}
use cs_453_concurrent_algori.Segment.Init.{Blank}
use cs_453_concurrent_algori.Word.{success_alloc, nomem_alloc}
use cs_453_concurrent_algori.Region.{Region}
use cs_453_concurrent_algori.Epoch.{abort_transaction_tx}
use cs_453_concurrent_algori.Tm.{AllocMemory, tm_alloc, tm_free, read_words, write_words}
use cs_453_concurrent_algori.Tm.Alloc.{
  CanAlloc, tm_alloc_new, tm_alloc_again, nomem_blocks, tm_alloc_wrong_segment,
}
use cs_453_concurrent_algori.Tm.Free.{deregister, tm_free_lem}
use cs_453_concurrent_algori.Tm.Reuse.{two_epochs_then_allocs, double_allocation}
use cs_453_concurrent_algori.Tm.ReadBack.{word_read, write_then_read}
use cs_453_concurrent_algori.Tests.Setup.{segment_memory, raw_region}
use cs_453_concurrent_algori.Tests.Blocks.{
  two_words, written_words, source, empty_stack, empty_stack-IsStack, one_entry, one_entry-IsStack,
  region_with, with-CanAlloc, written-CanCommit,
}

abbrev all_memory : AllocMemory
all_memory = record { realloc = true; segment = segment_memory }

abbrev no_arrays : AllocMemory
no_arrays = record { realloc = true; segment = record segment_memory { words_a = false } }

abbrev one_segment : Region
one_segment = region_with two_words empty_stack

abbrev one_free : Region
one_free = region_with written_words one_entry

tm_alloc_new_example :
    (r' : Region) × (tm_alloc all_memory one_segment 16
      ≡ done (r', success_alloc, some (get_virt_addr 1)))
    × (r'.n_segments ≡ 2)
    × Blank (r'.segments 1) 8 16
    × ((j : ℕ) → j ≢ 1 → r'.segments j ≡ one_segment.segments j)
    × CanAlloc r'
tm_alloc_new_example =
    tm_alloc_new all_memory one_segment 16 (with-CanAlloc two_words empty_stack) empty_stack-IsStack
      refl refl

tm_alloc_again_example :
    (r' : Region) × (tm_alloc all_memory one_free 16
      ≡ done (r', success_alloc, some (get_virt_addr 0)))
    × (r'.n_segments ≡ 1)
    × Blank (r'.segments 0) 8 16
    × ((j : ℕ) → j ≢ 0 → r'.segments j ≡ one_free.segments j)
    × IsStack r'.free_seg_indices []
    × CanAlloc r'
tm_alloc_again_example =
    tm_alloc_again all_memory one_free 16 0 [] (with-CanAlloc written_words one_entry)
      one_entry-IsStack (omega arith) (omega arith) refl

region_of : Outcome (Region × ℕ × Option ℕ) → Region
region_of (done (r, status, target)) = r
region_of _ = raw_region

-- The segment on the stack is made again, and gets no memory.
unfoldable after_nomem : Region
after_nomem = region_of (tm_alloc no_arrays one_free 16)

refused : tm_alloc no_arrays one_free 16 ≡ done (after_nomem, nomem_alloc, none)
unfolding after_nomem region_of tm_alloc init_segment
refused = refl

nomem_blocks_example :
    ((mem2 : AllocMemory) (size2 : ℕ) → tm_alloc mem2 after_nomem size2 ≡ blocked)
    × ((tx addr : ℕ) → tm_free after_nomem tx addr ≡ blocked)
nomem_blocks_example = nomem_blocks no_arrays one_free after_nomem 16 none refused

tm_alloc_wrong_segment_example :
    (r' : Region) × (tm_alloc no_arrays one_segment 16
      ≡ done (r', success_alloc, some (get_virt_addr 2)))
    × (r'.n_segments ≡ 2)
    × (usable (r'.segments 1) ≡ false)
tm_alloc_wrong_segment_example =
    tm_alloc_wrong_segment no_arrays one_segment 16 (with-CanAlloc two_words empty_stack)
      empty_stack-IsStack refl refl

tm_free_lem_example : tm_free one_segment 4 (get_virt_addr 0) ≡ (
    if (one_segment.segments (extract_seg_id (get_virt_addr 0))).deregistered == none_tx
    then done (deregister one_segment (extract_seg_id (get_virt_addr 0)) 4, true)
    else if (one_segment.segments (extract_seg_id (get_virt_addr 0))).deregistered == 4
    then undefined
    else abort_transaction_tx one_segment 4)
unfolding get_virt_addr extract_seg_id
tm_free_lem_example = tm_free_lem one_segment 4 (get_virt_addr 0) refl (omega arith) (omega arith)

double_allocation_example :
    two_epochs_then_allocs all_memory 16 (region_with written_words empty_stack)
    ≡ done (some (get_virt_addr 0), some (get_virt_addr 0))
double_allocation_example =
    double_allocation all_memory 16 0 (region_with written_words empty_stack) written-CanCommit
      (with-CanAlloc written_words empty_stack) refl refl

write_then_read_example :
    (seg1 : Segment) × (seg2 : Segment) × (target' : Bytes) × (write_words 2 two_words 3 0 source 5
      ≡ done (seg1, true))
    × (read_words 2 seg1 3 false 0 zeroed 40 ≡ done (seg2, target', true))
    × ((j : ℕ) → 0 ≤ j → j < 0 + 2 → word_read target' 40 0 8 j ≡ slice source (5 + (j - 0)) 8)
write_then_read_example =
    write_then_read 3 source 5 2 two_words 0 zeroed 40 (omega arith)
      (record { exist = λ j p q. ground arith; unlocked = λ j p q. refl }) (λ j p q. refl)
