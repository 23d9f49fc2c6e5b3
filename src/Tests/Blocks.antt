-- ===== src/Tests/Blocks.antt =====
-- A segment of two words of eight bytes and a region of one segment, written out.
use cs_453_concurrent_algori.Common.{true, false, refl, arith, ◌+◌, [], ◌∷◌}
use cs_453_concurrent_algori.Common.Int.{pos, negsuc}
use cs_453_concurrent_algori.Lock.{free_lock}
use cs_453_concurrent_algori.Memory.{Bytes, zeroed}
use cs_453_concurrent_algori.Segment.{made, Segment, none_tx}
use cs_453_concurrent_algori.Stack.{Stack}
use cs_453_concurrent_algori.Stack.Laws.{IsStack}
use cs_453_concurrent_algori.Region.{Region}
use cs_453_concurrent_algori.Epoch.Committed.{CanCommit}
use cs_453_concurrent_algori.Epoch.Aborted.{CanAbort}
use cs_453_concurrent_algori.Tm.Alloc.{CanAlloc}
use cs_453_concurrent_algori.Tests.Setup.{raw_region}

abbrev pub two_words : Segment
two_words = record {
  control = λ _. record { word_is_ro = false; access_set = none_tx; word_has_been_written = false };
  control_lock = λ _. free_lock;
  words_array_a = λ a. 100 + a;
  words_array_b = zeroed;
  n_words = 2;
  align = 8;
  deregistered = none_tx;
  pointers = made;
}

-- Transaction 3 has written both words, and deregistered the segment.
abbrev pub written_words : Segment
written_words = record two_words {
  control = λ _. record { word_is_ro = false; access_set = 3; word_has_been_written = true };
  words_array_b = λ a. 50 + a;
  deregistered = 3;
}

abbrev pub source : Bytes
source = λ a. 7 + a

abbrev pub empty_stack : Stack
empty_stack = record { vals = λ _. pos 0; top = negsuc 0 }

abbrev pub one_entry : Stack
one_entry = record { vals = λ _. pos 0; top = pos 0 }

pub empty_stack-IsStack : IsStack empty_stack []
empty_stack-IsStack = record { height = refl; entries = tt }

pub one_entry-IsStack : IsStack one_entry (pos 0 ∷ [])
one_entry-IsStack = record { height = refl; entries = (refl, tt) }

-- A region of that segment, with two transactions in the epoch.
abbrev pub region_with : Segment → Stack → Region
region_with seg st = record raw_region {
  n_segments = 1;
  segments = λ _. seg;
  capacity = 128;
  batcher = record raw_region.batcher { n_remaining = pos 2 };
  align = 8;
  free_seg_indices = st;
}

pub written-CanCommit : CanCommit (region_with written_words empty_stack) []
written-CanCommit = record {
  fits = omega arith;
  allocated = λ i h. refl;
  stack = empty_stack-IsStack;
  room = omega arith;
}

pub written-CanAbort : CanAbort (region_with written_words empty_stack)
written-CanAbort = record {
  fits = omega arith;
  allocated = λ i h. refl;
  unlocked = λ i h j k. refl;
  global = refl;
}

pub with-CanAlloc : (seg : Segment) (st : Stack) → CanAlloc (region_with seg st)
with-CanAlloc seg st = record {
  fits = omega arith;
  initial = omega arith;
  global = refl;
  aligned = omega arith;
}
