-- ===== src/Word/Runs.antt =====
-- Each branch of `read_word` and `write_word` as an equation: the call returns, with this segment.
use cs_453_concurrent_algori.Common.{
  ℕ, true, false, ◌==◌, ◌≡◌, ◌≢◌, ◌⊎◌, if◌then◌else◌, update, done, arith,
}
use cs_453_concurrent_algori.Lock.{Lock}
use cs_453_concurrent_algori.Memory.{Bytes}
use cs_453_concurrent_algori.Segment.{Segment, none_tx}
use cs_453_concurrent_algori.Word.{
  success_alloc, abort_alloc, read_read_only_copy, read_writable_copy, write_to_correct_copy,
  set_control, word_exists, read_word, write_word,
}

-- The locks after one was taken and let go
abbrev pub cycled : (ℕ → Lock) → ℕ → ℕ → Lock
cycled f i = update (update f i (record (f i) { mutex = true })) i (record (f i) { mutex = false })

abbrev pub cycle : Segment → ℕ → Segment
cycle seg i = record seg { control_lock = cycled seg.control_lock i }

-- The first access puts the transaction into the access set.
abbrev pub claimed : Segment → ℕ → ℕ → Segment
claimed seg tx i =
    if (seg.control i).access_set == none_tx
    then set_control seg i (record (seg.control i) { access_set = tx })
    else seg

abbrev pub owned : Segment → ℕ → ℕ → Segment
owned seg tx i =
    set_control seg i (record (seg.control i) { access_set = tx; word_has_been_written = true })

module _ (seg : Segment) (tx i : ℕ) (exists : word_exists seg i ≡ true) where
  pub read_word-ro :
      (target : Bytes) (at : ℕ)
      → read_word seg tx true i target at
        ≡ done (seg, read_read_only_copy i target at seg, success_alloc)
  unfolding read_word
  read_word-ro target at = ground arith

  module _ (unlocked : (seg.control_lock i).mutex ≡ false) (target : Bytes) (at : ℕ) where
    pub read_word_unwritten :
        (seg.control i).word_has_been_written ≡ false
        → read_word seg tx false i target at
          ≡ done (
            cycle (claimed seg tx i) i,
            read_read_only_copy i target at (cycle (claimed seg tx i) i),
            success_alloc,
          )
    unfolding read_word
    read_word_unwritten h = ground arith

    pub read_word_own :
        (seg.control i).word_has_been_written ≡ true
        → (seg.control i).access_set ≡ tx
        → read_word seg tx false i target at
          ≡ done (cycle seg i, read_writable_copy i target at (cycle seg i), success_alloc)
    unfolding read_word
    read_word_own h e = ground arith

    pub read_word_other :
        (seg.control i).word_has_been_written ≡ true
        → (seg.control i).access_set ≢ tx
        → read_word seg tx false i target at ≡ done (cycle seg i, target, abort_alloc)
    unfolding read_word
    read_word_other h e = ground arith

    pub write_word_first :
        (seg.control i).word_has_been_written ≡ false
        → ((seg.control i).access_set ≡ none_tx) ⊎ ((seg.control i).access_set ≡ tx)
        → write_word seg tx i target at
          ≡ done (write_to_correct_copy i target at (cycle (owned seg tx i) i), success_alloc)
    unfolding write_word
    write_word_first h e = ground arith

    pub write_word_held :
        (seg.control i).word_has_been_written ≡ false
        → (seg.control i).access_set ≢ none_tx
        → (seg.control i).access_set ≢ tx
        → write_word seg tx i target at ≡ done (cycle seg i, abort_alloc)
    unfolding write_word
    write_word_held h e k = ground arith

  module _ (written : (seg.control i).word_has_been_written ≡ true) (source : Bytes)
      (from : ℕ) where
    pub write_word_own :
        (seg.control i).access_set ≡ tx
        → write_word seg tx i source from
          ≡ done (write_to_correct_copy i source from seg, success_alloc)
    unfolding write_word
    write_word_own e = ground arith

    pub write_word_other :
        (seg.control i).access_set ≢ tx → write_word seg tx i source from ≡ done (seg, abort_alloc)
    unfolding write_word
    write_word_other e = ground arith
