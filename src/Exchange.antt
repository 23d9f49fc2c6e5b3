-- ===== src/Exchange.antt =====
-- sync-examples/procon3.c: a producer and a consumer with a ring buffer between them, each with its own
-- atomic counter. A step is one atomic operation, or what a thread does between two of them on data that is
-- its own at that time; memory orders are not told apart.
pub mod Ring
pub mod Correct
pub mod Spinning
pub mod Excluding
pub mod Sleeping
pub mod Resting
pub mod Calm
pub mod Progress
use cs_453_concurrent_algori.Common.{
  ℕ, zero, suc, ◌+◌, ◌%◌, ◌<◌, ◌≡◌, Bool, true, false, ◌==◌, ltb, if◌then◌else◌, update,
}

abbrev pub buffer_size : ℕ
buffer_size = 1024

-- `struct data`, as its text. A loop over it has `rounds` rounds left and is at the index `i`.
abbrev pub Data : Type 0
Data = ℕ → ℕ

unfoldable pub are_same : ℕ → ℕ → Data → Data → Bool
are_same zero i a b = true
are_same (suc rounds) i a b =
    let rest = are_same rounds (suc i) a b in if a i == b i then rest else false

-- The characters of `rand` are a parameter.
unfoldable pub fill_text : ℕ → ℕ → Data → Data → Data
fill_text zero i random text = text
fill_text (suc rounds) i random text = fill_text rounds (suc i) random (update text i (random i))

-- The global variables
pub record Globals : Type 0 where
  pub buffer : ℕ → Data
  pub produced_until : ℕ
  pub consumed_until : ℕ
  pub produced : ℕ → Data
  pub consumed : ℕ → Data

abbrev pub zeroed : Globals
zeroed = record {
  buffer = λ r i. 0;
  produced_until = 0;
  consumed_until = 0;
  produced = λ r i. 0;
  consumed = λ r i. 0;
}

abbrev pub can_produce : ℕ → ℕ → Globals → Bool
can_produce size r g = ltb r (g.consumed_until + size)

abbrev pub can_consume : ℕ → Globals → Bool
can_consume r g = ltb r g.produced_until

abbrev pub fill_produced : ℕ → Data → ℕ → Globals → Globals
fill_produced text_size random r g = record g {
  produced = update g.produced r (fill_text text_size 0 random (g.produced r));
}

abbrev pub put_in_buffer : ℕ → ℕ → Globals → Globals
put_in_buffer size r g = record g { buffer = update g.buffer (r % size) (g.produced r) }

abbrev pub count_produced : Globals → Globals
count_produced g = record g { produced_until = suc g.produced_until }

abbrev pub take_from_buffer : ℕ → ℕ → Globals → Globals
take_from_buffer size r g = record g { consumed = update g.consumed r (g.buffer (r % size)) }

abbrev pub count_consumed : Globals → Globals
count_consumed g = record g { consumed_until = suc g.consumed_until }

-- Where the threads stand in round `r`. A thread is through when it tests for the round `RUNS`.
pub data Producer : Type 0 where
  tests : ℕ → Producer
  fills : ℕ → Producer
  puts : ℕ → Producer
  counts : ℕ → Producer

pub data Consumer : Type 0 where
  looks : ℕ → Consumer
  takes : ℕ → Consumer
  ticks : ℕ → Consumer

pub record Exchange : Type 0 where
  pub globals : Globals
  pub producer : Producer
  pub consumer : Consumer

module _ (runs size text_size : ℕ) where
  -- `produce` and `consume`
  pub data Step (e : Exchange) : Exchange → Type 0 where
    full :
        (r : ℕ) → e.producer ≡ tests r → r < runs → can_produce size r e.globals ≡ false → Step e e
    may_produce :
        (r : ℕ)
        → e.producer ≡ tests r
        → r < runs
        → can_produce size r e.globals ≡ true
        → Step e (record e { producer = fills r })
    fill :
        (r : ℕ) (random : Data)
        → e.producer ≡ fills r
        → Step e
            (record e { globals = fill_produced text_size random r e.globals; producer = puts r })
    put :
        (r : ℕ)
        → e.producer ≡ puts r
        → Step e (record e { globals = put_in_buffer size r e.globals; producer = counts r })
    publish :
        (r : ℕ)
        → e.producer ≡ counts r
        → Step e (record e { globals = count_produced e.globals; producer = tests (suc r) })
    empty : (r : ℕ) → e.consumer ≡ looks r → r < runs → can_consume r e.globals ≡ false → Step e e
    may_consume :
        (r : ℕ)
        → e.consumer ≡ looks r
        → r < runs
        → can_consume r e.globals ≡ true
        → Step e (record e { consumer = takes r })
    take :
        (r : ℕ)
        → e.consumer ≡ takes r
        → Step e (record e { globals = take_from_buffer size r e.globals; consumer = ticks r })
    release :
        (r : ℕ)
        → e.consumer ≡ ticks r
        → Step e (record e { globals = count_consumed e.globals; consumer = looks (suc r) })

abbrev pub at_start : Exchange
at_start = record { globals = zeroed; producer = tests 0; consumer = looks 0 }

module _ (runs size text_size : ℕ) where
  pub data Reach : Exchange → Type 0 where
    start : Reach at_start
    later : {e f : Exchange} → Reach e → Step runs size text_size e f → Reach f

-- The loop of `main` behind the threads: whether it finds no round whose data differ
unfoldable pub looks_correct : ℕ → ℕ → ℕ → Globals → Bool
unfolding are_same
looks_correct text_size zero r g = true
looks_correct text_size (suc rounds) r g =
    let rest = looks_correct text_size rounds (suc r) g in
    if are_same text_size 0 (g.produced r) (g.consumed r) then rest else false
