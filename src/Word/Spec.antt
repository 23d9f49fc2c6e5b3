-- ===== src/Word/Spec.antt =====
-- What a word of the transactional memory is, with no copies, flags or locks: its committed bytes, and
-- which transaction has it in this epoch.
use cs_453_concurrent_algori.Common.{ℕ, ◌*◌, List, Option, none, some, ◌==◌, if◌then◌else◌}
use cs_453_concurrent_algori.Memory.Slices.{slice}
use cs_453_concurrent_algori.Segment.{Control, Segment, none_tx}
use cs_453_concurrent_algori.Word.{ro_array, rw_array}

-- No transaction, one that read it first, or one that wrote it, with what it wrote.
pub data Access : Type 0 where
  untouched : Access
  held : ℕ → Access
  dirty : ℕ → List ℕ → Access

pub record View : Type 0 where
  pub committed : List ℕ
  pub access : Access

-- What a transaction reads, if it may, and the word afterwards.
abbrev read_access : ℕ → View → Access → Option (List ℕ) × View
read_access tx v untouched = (some v.committed, record v { access = held tx })
read_access tx v (held t) = (some v.committed, v)
read_access tx v (dirty t p) = if t == tx then (some p, v) else (none, v)

abbrev pub spec_read : ℕ → View → Option (List ℕ) × View
spec_read tx v = read_access tx v v.access

abbrev write_access : ℕ → List ℕ → View → Access → Option View
write_access tx bytes v untouched = some (record v { access = dirty tx bytes })
write_access tx bytes v (held t) =
    if t == tx then some (record v { access = dirty tx bytes }) else none
write_access tx bytes v (dirty t p) =
    if t == tx then some (record v { access = dirty tx bytes }) else none

-- The word after a write; `none` if it is another transaction's.
abbrev pub spec_write : ℕ → List ℕ → View → Option View
spec_write tx bytes v = write_access tx bytes v v.access

abbrev commit_access : View → Access → View
commit_access v untouched = v
commit_access v (held t) = record v { access = untouched }
commit_access v (dirty t p) = record { committed = p; access = untouched }

-- The end of an epoch
abbrev pub spec_commit : View → View
spec_commit v = commit_access v v.access

abbrev abort_access : ℕ → View → Access → View
abort_access tx v untouched = v
abort_access tx v (held t) = v
abort_access tx v (dirty t p) = if t == tx then record v { access = untouched } else v

-- The end of a transaction that aborts
abbrev pub spec_abort : ℕ → View → View
spec_abort tx v = abort_access tx v v.access

-- The word that the copies and the control structure stand for
abbrev view_access : Control → List ℕ → Access
view_access c p =
    if c.word_has_been_written
    then dirty c.access_set p
    else if c.access_set == none_tx
    then untouched
    else held c.access_set

abbrev pub committed_bytes : Segment → ℕ → List ℕ
committed_bytes seg i = slice (ro_array seg i) (i * seg.align) seg.align

abbrev pub pending_bytes : Segment → ℕ → List ℕ
pending_bytes seg i = slice (rw_array seg i) (i * seg.align) seg.align

abbrev pub view : Segment → ℕ → View
view seg i = record {
  committed = committed_bytes seg i;
  access = view_access (seg.control i) (pending_bytes seg i);
}
