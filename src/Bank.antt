-- ===== src/Bank.antt =====
-- grading/workload.hpp, class WorkloadBank: accounts in a linked list of segments, and the transactions of
-- the workload over them.
pub mod Segments
pub mod Lists
pub mod Last
pub mod Walk
pub mod Search
pub mod Transfer
pub mod Audit
pub mod Accounts
pub mod Grown
pub mod Closing
pub mod Ends
pub mod Allocation
use cs_453_concurrent_algori.Common.{
  ℕ, zero, suc, ◌+◌, ◌-◌, ◌*◌, ◌^◌, ◌%◌, Bool, true, false, ◌&&◌, not, ◌==◌, ltb, leb,
  if◌then◌else◌, Option, none, some,
}
use cs_453_concurrent_algori.Transactional.{
  Prog, give, throw, diverge, ◌>>=◌, ◌>>◌, assert_mode, transaction_not_last_segment,
}
use cs_453_concurrent_algori.Transactional.Shared.{
  shared_read, shared_write, after, shared_alloc, shared_free, cell,
}

-- `Balance` and `size_t` have 64 bits. A balance is its two's complement.
abbrev pub wrap : ℕ → ℕ
wrap v = v % 0x10000000000000000

abbrev pub is_negative : ℕ → Bool
is_negative v = leb 0x8000000000000000 v

abbrev pub minus : ℕ → ℕ → ℕ
minus a b = wrap (a + (0x10000000000000000 - wrap b))

-- `AccountSegment`: its size, and where its parts are
abbrev pub segment_size : ℕ → ℕ
segment_size nbaccounts = 24 + nbaccounts * 8

abbrev pub segment_align : ℕ
segment_align = 8

-- The size of an `AccountSegment` itself, four bound references
abbrev account_segment_size : ℕ
account_segment_size = 64

abbrev pub count : ℕ → ℕ
count address = address

abbrev pub next : ℕ → ℕ
next address = after (count address)

abbrev pub parity : ℕ → ℕ
parity address = after (next address)

abbrev pub accounts : ℕ → ℕ
accounts address = after (parity address)

-- The loop of `long_tx` over the accounts of a segment; `none` at a negative balance.
unfoldable pub sum_accounts : ℕ → ℕ → ℕ → ℕ → Prog (Option ℕ)
sum_accounts zero i base sum = give (some sum)
sum_accounts (suc rounds) i base sum = shared_read (cell base i) >>= λ local.
    (let rest = sum_accounts rounds (suc i) base (wrap (sum + local)) in
      if is_negative local then give none else rest)

-- The loop over the segments, for at most that many rounds
unfoldable pub sum_segments : ℕ → ℕ → ℕ → ℕ → Prog (Option (ℕ × ℕ))
unfolding sum_accounts
sum_segments zero start total sum = diverge
sum_segments (suc rounds) start total sum =
    if start == 0
    then give (some (total, sum))
    else (shared_read (count start) >>= λ segment_count. shared_read (parity start) >>= λ par.
        sum_accounts segment_count 0 (accounts start) (wrap (sum + par)) >>= λ found.
        elim found as (λ _. Prog (Option (ℕ × ℕ))) [
          | none ↦ give none
          | some sum1 ↦ shared_read (next start) >>= λ following.
              sum_segments rounds following (wrap (total + segment_count)) sum1
        ])

-- The answer, and the number of accounts, which is left as it was at a negative balance.
abbrev pub audit : ℕ → ℕ → Option (ℕ × ℕ) → Bool × ℕ
audit init_balance nbaccounts none = (false, nbaccounts)
audit init_balance nbaccounts (some (total, sum)) = (sum == wrap (init_balance * total), total)

unfoldable pub long_tx : ℕ → ℕ → ℕ → ℕ → Prog (Bool × ℕ)
unfolding sum_segments
long_tx rounds init_balance start nbaccounts =
    sum_segments rounds start 0 0 >>= λ r. give (audit init_balance nbaccounts r)

-- `alloc_tx` at the last segment: an account is taken away,
unfoldable pub remove_account : ℕ → ℕ → ℕ → ℕ → Prog (Unit {0})
remove_account init_balance prev start segment_count = shared_read (parity start) >>= λ par.
    shared_read (cell (accounts start) (minus segment_count 1)) >>= λ last.
    (let left = minus segment_count 1 in
      let new_parity = minus (wrap (par + last)) init_balance in
      if ltb 0 left
      then (shared_write (count start) left >> shared_write (parity start) new_parity)
      else if assert_mode && prev == 0
      then throw transaction_not_last_segment
      else (shared_free (next prev)
          >> (shared_read (parity prev) >>= λ old.
              shared_write (parity prev) (wrap (old + new_parity)))))

-- or one is added.
unfoldable pub add_account : ℕ → ℕ → ℕ → ℕ → Prog (Unit {0})
add_account init_balance nbaccounts start segment_count =
    if ltb segment_count nbaccounts
    then (shared_write (cell (accounts start) segment_count) init_balance
        >> shared_write (count start) (wrap (segment_count + 1)))
    else (shared_alloc account_segment_size (next start) (segment_size nbaccounts) >>= λ fresh.
        shared_write (count fresh) 1 >> shared_write (cell (accounts fresh) 0) init_balance)

-- The last segment, where that many accounts were seen
unfoldable pub at_last : ℕ → ℕ → ℕ → ℕ → ℕ → ℕ → ℕ → Prog (Unit {0})
unfolding remove_account add_account
at_last init_balance nbaccounts trigger seen prev start segment_count =
    if ltb trigger seen && ltb 2 seen
    then remove_account init_balance prev start segment_count
    else add_account init_balance nbaccounts start segment_count

-- The loop of `alloc_tx`, for at most that many rounds
unfoldable pub alloc_walk : ℕ → ℕ → ℕ → ℕ → ℕ → ℕ → ℕ → Prog (Unit {0})
unfolding at_last
alloc_walk zero init_balance nbaccounts trigger total prev start = diverge
alloc_walk (suc rounds) init_balance nbaccounts trigger total prev start =
    shared_read (count start) >>= λ segment_count. shared_read (next start) >>= λ following.
    (let seen = wrap (total + segment_count) in
      let rest = alloc_walk rounds init_balance nbaccounts trigger seen start following in
      if following == 0
      then at_last init_balance nbaccounts trigger seen prev start segment_count
      else rest)

unfoldable pub alloc_tx : ℕ → ℕ → ℕ → ℕ → ℕ → Prog (Unit {0})
unfolding alloc_walk
alloc_tx rounds init_balance nbaccounts start trigger =
    alloc_walk rounds init_balance nbaccounts trigger 0 0 start

-- One of the two pointers that `short_tx` looks for, in one segment: the pointer, 0 if it is not found
-- yet, and what is left of the index.
abbrev pub look : ℕ → ℕ → ℕ → ℕ → ℕ × ℕ
look start segment_count id ptr =
    if ptr == 0
    then (if ltb id segment_count then (cell (accounts start) id, id) else (0, id - segment_count))
    else (ptr, id)

-- The loop of `short_tx`, for at most that many rounds; `none` if an account does not exist.
unfoldable pub find_accounts : ℕ → ℕ → ℕ → ℕ → ℕ → ℕ → Prog (Option (ℕ × ℕ))
find_accounts zero send_id recv_id send_ptr recv_ptr start = diverge
find_accounts (suc rounds) send_id recv_id send_ptr recv_ptr start =
    shared_read (count start) >>= λ segment_count.
    (let (send1, send_left) = look start segment_count send_id send_ptr in
      let (recv1, recv_left) = look start segment_count recv_id recv_ptr in
      if not (send1 == 0) && not (recv1 == 0)
      then give (some (send1, recv1))
      else (shared_read (next start) >>= λ following.
          (let rest = find_accounts rounds send_left recv_left send1 recv1 following in
            if following == 0 then give none else rest)))

-- The transfer of one unit. A balance that is positive has no top bit and is not 0.
unfoldable pub transfer : Option (ℕ × ℕ) → Prog Bool
transfer none = give false
transfer (some (sender, recver)) = shared_read sender >>= λ send_val.
    (if ltb 0 send_val && not (is_negative send_val)
      then (shared_write sender (minus send_val 1)
          >> (shared_read recver >>= λ old. shared_write recver (wrap (old + 1)))
          >> give true)
      else give true)

unfoldable pub short_tx : ℕ → ℕ → ℕ → ℕ → Prog Bool
unfolding find_accounts transfer
short_tx rounds start send_id recv_id = find_accounts rounds send_id recv_id 0 0 start >>= transfer

-- The two transactions of `init`
unfoldable pub fill_accounts : ℕ → ℕ → ℕ → ℕ → Prog (Unit {0})
fill_accounts zero i base init_balance = give tt
fill_accounts (suc rounds) i base init_balance =
    shared_write (cell base i) init_balance >> fill_accounts rounds (suc i) base init_balance

unfoldable pub init_tx : ℕ → ℕ → ℕ → Prog (Unit {0})
unfolding fill_accounts
init_tx nbaccounts init_balance start =
    shared_write (count start) nbaccounts
    >> fill_accounts nbaccounts 0 (accounts start) init_balance

unfoldable pub init_check_tx : ℕ → ℕ → Prog Bool
init_check_tx init_balance start =
    shared_read (cell (accounts start) 0) >>= λ first. give (first == init_balance)
