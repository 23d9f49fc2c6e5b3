-- ===== src/Lib.antt =====
-- A verification library of the software transactional memory of 275085/ (a dual-versioned memory with a
-- batcher, in C). The parts of the program and the files that model them:
--
--   275085/lock.c, lock.h        Lock: a mutex with a condition, as its state and the number of waiters.
--   275085/stack.c, stack.h      Stack: the indices of free segments. Stack/Laws: it is a list.
--   275085/tm.c, the macros      Address: a segment's index and an offset as an address. Address/RoundTrip.
--   275085/segment.c, segment.h  Segment: two copies of each word with a control structure and a lock, and
--                                what the pointers to them are. Init and Failing: init_segment.
--   275085/tm.c, word access     Word: read_word, write_word and the copies they make. Word/Spec is the
--                                abstract word: committed bytes, and the transaction that has the word.
--                                Reading and Writing refine it, Consequences and WriteSkew apply it.
--   275085/batcher.c, batcher.h  Batcher: enter_batcher and the epochs. Region: region_t. Epoch:
--                                leave_batcher, commit_transcations_in_epoch and abort_transaction_tx
--                                (275085/tm.c); Epoch/Refinement states them on abstract words.
--   275085/tm.c                  Tm: tm_create to tm_free, with their helpers. Its children: allocation,
--                                freeing, several words, what is read back.
--   all of it                    System: threads that run transactions over one region, as a step
--                                relation, its invariants and what follows (System/Safety, Isolation).
--   reference/tm.c, shared-lock.c
--                                Reference: the reference memory, a read-write lock for the whole region.
--                                Exclusion: threads over it. Chain, Unlink and Destroy: the doubly linked
--                                list of its segments.
--   grading/grading.cpp, Sync    Sync: the master and the workers of the grader, with the latch of
--                                grading/common.hpp as a flag. Phases, Arriving and Finishing: the phases
--                                of a run. Outcome: what it is reported as.
--   grading/transactional.hpp    Transactional: a transaction's closure as the tree of its operations, and
--                                the loop that runs it over a library until it commits. Shared: the typed
--                                accesses. Protocol: what the library sees. Atomic: the ways in which the
--                                closure may end alone on a memory of words. Promise, Rounds and Committed:
--                                the loop over a library that does what its interface says.
--   grading/workload.hpp         Bank: the transactions of WorkloadBank on a linked list of segments of
--                                accounts. Audit: long_tx. Search and Transfer: short_tx. Last, Accounts,
--                                Grown, Closing, Ends and Allocation: alloc_tx. Check, with Countdown, Moves and Passed:
--                                its check, workers that count a shared counter down.
--   grading/common.hpp, Barrier  Barrier: threads at a barrier. Phases, Steps and Safe: they leave it together.
--   sync-examples/procon2.c, procon3.c, procon4.c
--                                Exchange: a producer and a consumer with atomic counters. Ring and Correct:
--                                the ring buffer between them. Spinning and Excluding: with a lock.
--                                Sleeping, Resting, Calm and Progress: with a lock, sleep and wake-up.
--
-- Common has what these share: results that may block or be undefined (Outcome), arrays as functions
-- (update), the `for` loop (for_range), signed numbers, bits, and sums over threads. Memory is private
-- memory and memcpy. Tests has runs at concrete inputs.
--
-- State is passed on explicitly: an operation takes a record and returns the next one in Outcome, where
-- `blocked` is an acquire of a mutex that is held and `undefined` what C leaves undefined: an access
-- out of an array, a division by zero, a release of a mutex that is free. A loop is structural on its
-- number of rounds, so no fuel is needed; only `tm_destroy` of Reference takes a number of rounds, and
-- as many as there are segments are enough. An `int` or `size_t` is a number without a bound, save
-- where `% 2 ^ w` is written; -1 is a negative number of Common/Int. Whether an allocation succeeds is
-- a parameter. A pointer of a segment is null, not to be followed, or to a block; what the blocks hold are
-- the segment's other fields. A segment is used only where all four pointers are to blocks (`usable`).
-- The field `capacity` is none of the source: it is the number of segments that there is a block for.
--
-- A step of System is one word's access or one call under a lock; the instants between the critical
-- section of a word and its copy are not told apart. A thread waits in enter_batcher in one step and
-- goes on in another, behind a broadcast; a wake-up without one is not modelled. Memory that is not
-- freed is not counted. The process's own memory, the scheduler and pthread's calls beyond mutex and
-- condition are outside of the model, and so are the rest of grading/ and sync-examples/, playground/
-- and template/. A library of Transactional is a parameter; that the closure of a transaction keeps to the
-- interface, and what a library promises of the calls that do, are hypotheses. Where a segment is put is
-- left to the library in every call. Its loop takes a number of
-- rounds, since a library may refuse for ever. The loops of Bank over segments take one too, and as many
-- as there are segments, or one more in long_tx, are enough. In Exchange the memory orders of atomic
-- operations are not told apart; all steps interleave.
pub mod Common
pub mod Lock
pub mod Memory
pub mod Stack
pub mod Address
pub mod Segment
pub mod Word
pub mod Batcher
pub mod Region
pub mod Epoch
pub mod Tm
pub mod System
pub mod Reference
pub mod Sync
pub mod Transactional
pub mod Bank
pub mod Exchange
pub mod Barrier
pub mod Check
pub mod Tests
