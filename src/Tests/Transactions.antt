-- ===== src/Tests/Transactions.antt =====
-- The theorems on `transactional`, over a library for a single thread that refuses the first transactions and
-- puts each segment elsewhere.
use cs_453_concurrent_algori.Common.{
  ℕ, ◌+◌, ◌-◌, ◌*◌, ◌≤◌, ◌≡◌, ◌≢◌, inr, refl, subst, ap, ◌∙◌, update, arith, List, [], ◌∷◌, some,
  true, false, ◌==◌, leb, if◌then◌else◌,
}
use cs_453_concurrent_algori.Word.{success_alloc, nomem_alloc}
use cs_453_concurrent_algori.Transactional.{
  Library, read_write, Prog, give, writes, allocs, ◌>>=◌, ◌>>◌, endless, transactional, run,
  attempt,
}
use cs_453_concurrent_algori.Transactional.Shared.{shared_read, shared_write}
use cs_453_concurrent_algori.Transactional.Atomic.{Block, Memory, granted, without, Clear, Fresh}
use cs_453_concurrent_algori.Transactional.Protocol.{watched, broken, quiet, transactional-Quiet}
use cs_453_concurrent_algori.Transactional.Promise.{Lawful}

-- The committed memory, that of the open transaction, the number of transactions still to be refused, and
-- the number of segments that were ever allocated, in refused transactions too
record Desk : Type 0 where
  kept : Memory
  seen : Memory
  refusals : ℕ
  grants : ℕ

-- An address behind every one of these
abbrev above : List Block → ℕ
above [] = 0
above (b ∷ bs) = b.base + b.size + above bs

above-Clear : (a size : ℕ) (bs : List Block) → above bs ≤ a → Clear a size bs
above-Clear a size [] h = tt
above-Clear a size (b ∷ bs) h = (inr (omega arith), above-Clear a size bs (omega arith))

abbrev next_address : Desk → ℕ
next_address s = 8 * (1 + s.grants + above (s.seen.first ∷ s.seen.blocks))

abbrev blank : Memory
blank = record { content = λ a. 0; first = record { base = 1024; size = 64 }; blocks = [] }

abbrev desk : Library Desk
desk = record {
  lib_create = λ size align. some (record { kept = blank; seen = blank; refusals = 1; grants = 0 });
  lib_start = λ s. s.kept.first.base;
  lib_begin = λ s ro. (record s { seen = s.kept }, 1);
  lib_end = λ s tx.
      if s.refusals == 0
      then (record s { kept = s.seen }, true)
      else (record s { refusals = s.refusals - 1 }, false);
  lib_read = λ s tx source size. (s, true, s.seen.content source);
  lib_write = λ s tx content size target.
      (record s { seen = record s.seen { content = update s.seen.content target content } }, true);
  lib_alloc = λ s tx size.
      if leb size 65536
      then (
        record s { seen = granted s.seen (next_address s) size; grants = s.grants + 1 },
        success_alloc,
        next_address s,
      )
      else (s, nomem_alloc, 0);
  lib_free = λ s tx target.
      (record s { seen = record s.seen { blocks = without target s.seen.blocks } }, true);
}

next_address-Fresh : (s : Desk) (size : ℕ) → Fresh s.seen (next_address s) size
next_address-Fresh s size = (
  λ e. omega arith,
  omega arith,
  above-Clear (next_address s) size (s.seen.first ∷ s.seen.blocks) (omega arith),
)

desk-grants :
    (s s1 : Desk) (tx size a : ℕ) (m c : Memory)
    → (s.seen ≡ m) × (s.kept ≡ c)
    → desk.lib_alloc s tx size ≡ (s1, success_alloc, a)
    → Fresh m a size × ((s1.seen ≡ granted m a size) × (s1.kept ≡ c))
desk-grants s s1 tx size a m c (h, i) e =
    let at : next_address s ≡ a = ground arith in
    let new : Fresh m (next_address s) size =
      subst (λ x. Fresh x (next_address s) size) h (next_address-Fresh s size) in
    let there : s1.seen ≡ granted s.seen a size = ground arith in
    (subst (λ x. Fresh m x size) at new, (there ∙ ap (λ x. granted x a size) h, ground arith))

desk-Lawful : Lawful desk read_write
desk-Lawful = record {
  Idle = λ s c. s.kept ≡ c;
  Open = λ s tx m c. (s.seen ≡ m) × (s.kept ≡ c);
  begin_done = λ s s1 tx c i e h. ground arith;
  begin_refused = λ s s1 c i e. ground arith;
  read_done = λ s s1 tx source v m c o w e. ground arith;
  read_refused = λ s s1 tx source v m c o w e. ground arith;
  write_done = λ s s1 tx content target m c k o w e. ground arith;
  write_refused = λ s s1 tx content target m c k o w e. ground arith;
  alloc_done = λ s s1 tx size a m c k o h g e. desk-grants s s1 tx size a m c o e;
  alloc_nomem = λ s s1 tx size a m c k o h g e. ground arith;
  alloc_refused = λ s s1 tx size status a m c k o h g x y e. absurd (ground arith);
  free_done = λ s s1 tx target m c k o w e. ground arith;
  free_refused = λ s s1 tx target m c k o w e. ground arith;
  end_done = λ s s1 tx m c o e. ground arith;
  end_refused = λ s s1 tx m c o e. ground arith;
}

-- A segment of two words is allocated and written to, and its address is put where all find it.
abbrev put_in : Prog ℕ
put_in = allocs 16 λ a. writes 7 8 a (shared_read 1024 >>= λ v. shared_write 1024 a >> give v)

abbrev at_first : Desk
at_first = record { kept = blank; seen = blank; refusals = 1; grants = 0 }

one_round : (transactional desk 1 at_first read_write put_in).1 ≡ endless
unfolding transactional attempt run
one_round = refl

-- The segment is where that of the refused round was not.
elsewhere :
    (transactional desk 2 at_first read_write put_in).0.kept.content 1024 ≢ next_address at_first
unfolding transactional attempt run
elsewhere e = omega arith

transactional-Quiet_example :
    ((transactional (watched desk) 2 (at_first, quiet) read_write put_in).0.1 ≢ broken)
    × ((transactional (watched desk) 2 (at_first, quiet) read_write put_in).1 ≢ endless
        → (transactional (watched desk) 2 (at_first, quiet) read_write put_in).0.1 ≡ quiet)
transactional-Quiet_example = transactional-Quiet desk read_write put_in 2 at_first
