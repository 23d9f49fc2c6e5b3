-- ===== src/Tests/Words.antt =====
-- The theorems on stacks, addresses, segments and words, at concrete ones.
use cs_453_concurrent_algori.Common.{
  ℕ, ◌+◌, ◌/◌, ◌%◌, ◌^◌, ◌≡◌, true, false, refl, [], ◌∷◌, Outcome, done, arith,
}
use cs_453_concurrent_algori.Common.Int.{pos}
use cs_453_concurrent_algori.Memory.{Bytes, zeroed}
use cs_453_concurrent_algori.Memory.Slices.{slice}
use cs_453_concurrent_algori.Stack.{Stack, push, pop}
use cs_453_concurrent_algori.Stack.Laws.{IsStack, Popped, push-IsStack, pop-IsStack}
use cs_453_concurrent_algori.Address.{get_virt_addr, extract_seg_id, extract_word_index}
use cs_453_concurrent_algori.Address.RoundTrip.{extract-get_virt_addr}
use cs_453_concurrent_algori.Segment.{Segment, null, block, usable, none_tx, init_segment}
use cs_453_concurrent_algori.Segment.Init.{Blank, init_segment-Blank}
use cs_453_concurrent_algori.Segment.Failing.{in_order, init_segment_fails}
use cs_453_concurrent_algori.Word.{success_alloc, read_word, write_word, abort_alloc}
use cs_453_concurrent_algori.Word.Spec.{view, spec_commit}
use cs_453_concurrent_algori.Word.Reading.{Reads, read_word-Reads}
use cs_453_concurrent_algori.Word.Writing.{Writes, write_word-Writes}
use cs_453_concurrent_algori.Word.WriteSkew.{skew, write_skew}
use cs_453_concurrent_algori.Word.Consequences.{read_own_write, write_isolated}
use cs_453_concurrent_algori.Tests.Setup.{segment_memory, raw_segment}
use cs_453_concurrent_algori.Tests.Blocks.{
  two_words, written_words, source, one_entry, one_entry-IsStack,
}

push-IsStack_example :
    (s : Stack) × (push one_entry (pos 9) ≡ done (s, pos 0)) × IsStack s (pos 9 ∷ pos 0 ∷ [])
push-IsStack_example = push-IsStack one_entry (pos 0 ∷ []) (pos 9) one_entry-IsStack (omega arith)

pop-IsStack_example : Popped (pos 0 ∷ []) one_entry (pop one_entry)
pop-IsStack_example = pop-IsStack one_entry (pos 0 ∷ []) one_entry-IsStack (omega arith)

extract-get_virt_addr_example :
    (extract_seg_id (get_virt_addr 5 + 70000) ≡ 5 + 70000 / 2 ^ 16)
    × (extract_word_index (get_virt_addr 5 + 70000) 8 ≡ 70000 % 2 ^ 16 / 8)
extract-get_virt_addr_example = extract-get_virt_addr 5 70000 8 (omega arith)

init_segment-Blank_example :
    (s : Segment) × (init_segment segment_memory raw_segment 8 24 ≡ done (s, true)) × Blank s 8 24
init_segment-Blank_example = init_segment-Blank segment_memory raw_segment 8 24 (omega arith) refl

-- A segment is used again, and the first allocation fails.
init_segment_fails_example :
    (s : Segment) × (init_segment (record segment_memory { words_a = false }) two_words 8 24
      ≡ done (s, false))
    × (in_order s.pointers ≡ null ∷ block ∷ block ∷ block ∷ [])
    × (usable s ≡ false)
    × (s.n_words ≡ 24 / 8)
    × (s.deregistered ≡ none_tx)
    × (s.control_lock ≡ two_words.control_lock)
    × (s.words_array_b ≡ two_words.words_array_b)
    × (s.control ≡ two_words.control)
init_segment_fails_example =
    init_segment_fails (record segment_memory { words_a = false }) two_words 8 24 (omega arith) refl

read_word-Reads_example :
    (seg' : Segment) × (target' : Bytes) × (status : ℕ) × (read_word written_words 3 false 1 zeroed
        4
      ≡ done (seg', target', status))
    × Reads written_words 3 1 zeroed 4 seg' target' status
read_word-Reads_example = read_word-Reads written_words 3 1 zeroed 4 refl refl (omega arith)

write_word-Writes_example :
    (seg' : Segment) × (status : ℕ) × (write_word two_words 3 1 source 2 ≡ done (seg', status))
    × Writes two_words 3 1 (slice source 2 8) seg' status
write_word-Writes_example = write_word-Writes two_words 3 1 source 2 refl refl (omega arith)

segment_of : Outcome (Segment × ℕ) → Segment
segment_of (done (s, status)) = s
segment_of _ = two_words

unfoldable after_write : Segment
after_write = segment_of (write_word two_words 3 1 source 2)

written : write_word two_words 3 1 source 2 ≡ done (after_write, success_alloc)
unfolding after_write segment_of write_word
written = refl

read_own_write_example :
    (seg'' : Segment) × (target' : Bytes) × (read_word after_write 3 false 1 zeroed 4
      ≡ done (seg'', target', success_alloc))
    × (slice target' 4 8 ≡ slice source 2 8)
read_own_write_example =
    read_own_write two_words 3 1 source 2 zeroed 4 refl refl (omega arith) after_write written

write_isolated_example :
    ((seg'' : Segment) × (read_word after_write 0 false 1 zeroed 4
        ≡ done (seg'', zeroed, abort_alloc)))
    × ((seg'' : Segment) × (write_word after_write 0 1 source 2 ≡ done (seg'', abort_alloc)))
    × ((target' : Bytes) × (read_word after_write 0 true 1 zeroed 4
          ≡ done (after_write, target', success_alloc))
        × (slice target' 4 8 ≡ (view two_words 1).committed))
write_isolated_example =
    write_isolated two_words 3 1 source 2 zeroed 4 refl refl (omega arith) after_write written 0
      (omega arith) (omega arith)

write_skew_example :
    (seg' : Segment) × (ti : Bytes) × (tj : Bytes) × (ui : Bytes) × (uj : Bytes) × (skew two_words 0
        1 0 1 source
      ≡ done (seg', ti, tj, ui, uj, success_alloc))
    × (slice ti 0 8 ≡ (view two_words 0).committed)
    × (slice tj 0 8 ≡ (view two_words 1).committed)
    × (slice ui 0 8 ≡ (view two_words 0).committed)
    × (slice uj 0 8 ≡ (view two_words 1).committed)
    × ((spec_commit (view seg' 0)).committed ≡ slice source 0 8)
    × ((spec_commit (view seg' 1)).committed ≡ slice source 0 8)
write_skew_example =
    write_skew two_words 0 1 0 1 source (omega arith) (omega arith) (omega arith) refl refl refl
      refl refl refl
