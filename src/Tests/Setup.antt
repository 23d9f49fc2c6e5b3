-- ===== src/Tests/Setup.antt =====
-- A region of two words of eight bytes, as `tm_create` makes it, and two threads over it.
use cs_453_concurrent_algori.Common.{
  ◌≡◌, refl, true, false, Option, some, Outcome, done, arith, for_range, update,
}
use cs_453_concurrent_algori.Common.Int.{pos}
use cs_453_concurrent_algori.Lock.{free_lock}
use cs_453_concurrent_algori.Memory.{zeroed}
use cs_453_concurrent_algori.Segment.{
  Pointers, invalid, Segment, SegmentMemory, zero_control, init_segment, init_word,
}
use cs_453_concurrent_algori.Batcher.{entered, waits}
use cs_453_concurrent_algori.Region.{Region}
use cs_453_concurrent_algori.Tm.{CreateMemory, tm_create, tm_begin}
use cs_453_concurrent_algori.System.{System, idle, waiting, running, begins, blocks, start, later}
use cs_453_concurrent_algori.System.Safety.{Running}

abbrev pub segment_memory : SegmentMemory
segment_memory = record { words_a = true; words_b = true; control = true; control_lock = true }

abbrev pub memory : CreateMemory
memory = record {
  region = true;
  segments = true;
  global_mutex = true;
  global_cond = true;
  batcher_mutex = true;
  batcher_cond = true;
  segment = segment_memory;
}

-- Pointers that were never set
abbrev garbage : Pointers
garbage = record { words_a = invalid; words_b = invalid; control = invalid; control_lock = invalid }

abbrev pub raw_segment : Segment
raw_segment = record {
  control = λ _. zero_control;
  control_lock = λ _. free_lock;
  words_array_a = zeroed;
  words_array_b = zeroed;
  n_words = 0;
  align = 0;
  deregistered = 0;
  pointers = garbage;
}

abbrev pub raw_region : Region
raw_region = record {
  addr = 0;
  n_segments = 0;
  segments = λ _. raw_segment;
  capacity = 0;
  global_lock = free_lock;
  batcher = record {
    tx_id_generator = 7;
    cur_epoch = 7;
    n_remaining = pos 7;
    n_blocked = 7;
    n_in_epoch = 7;
    lock = free_lock;
  };
  align = 0;
  seg_size = 0;
  is_ro_flags = λ _. false;
  free_seg_indices = record { vals = λ _. pos 0; top = pos 5 };
}

abbrev region_of : Outcome (Option Region) → Region
region_of (done (some r)) = r
region_of _ = raw_region

unfoldable pub region : Region
unfolding tm_create
region = region_of (tm_create memory raw_region 16 8)

pub region_created : tm_create memory raw_region 16 8 ≡ done (some region)
unfolding tm_create init_segment init_word for_range region
region_created = refl

-- Thread 0 is in a transaction that writes.
abbrev pub one_runs : System
one_runs = record {
  region = record region {
    batcher = record {
      tx_id_generator = 1;
      cur_epoch = 0;
      n_remaining = pos 1;
      n_blocked = 0;
      n_in_epoch = 1;
      lock = free_lock;
    };
    is_ro_flags = update region.is_ro_flags 0 false;
  };
  pc = update (λ _. idle) 0 (running 0);
}

-- Thread 1 waits for the next epoch.
abbrev pub one_waits : System
one_waits = record {
  region = record one_runs.region {
    batcher = record {
      tx_id_generator = 1;
      cur_epoch = 0;
      n_remaining = pos 1;
      n_blocked = 1;
      n_in_epoch = 1;
      lock = record { mutex = false; all_tx_left_batcher = 1 };
    };
  };
  pc = update one_runs.pc 1 (waiting true);
}

one_begins : tm_begin region false ≡ done (one_runs.region, entered 0)
unfolding tm_begin tm_create init_segment init_word for_range region
one_begins = refl

one_blocks : tm_begin one_runs.region true ≡ done (one_waits.region, waits)
unfolding tm_begin
one_blocks = refl

pub two_threads : Running 2 one_waits
two_threads = record {
  mem = memory;
  raw = raw_region;
  first = region;
  size = 16;
  align = 8;
  created = region_created;
  reached =
      later (later start (begins 0 false (omega arith) refl one_begins))
        (blocks 1 true (omega arith) refl one_blocks);
}
