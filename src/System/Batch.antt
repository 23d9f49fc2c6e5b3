-- ===== src/System/Batch.antt =====
-- What each call does to the batcher, whatever it does to the segments.
use cs_453_concurrent_algori.Common.{
  ℕ, suc, ◌+◌, ◌≡◌, ◌≢◌, Bool, true, false, refl, ◌∙◌, if◌then◌else◌, Option, done, >>=-eq-done,
  for_range, for_range_keeps, arith, Bool-cases, inl, inr,
}
use cs_453_concurrent_algori.Common.Int.{pos, is_pos}
use cs_453_concurrent_algori.Batcher.{Batcher, entered, waits}
use cs_453_concurrent_algori.Region.{Region}
use cs_453_concurrent_algori.Epoch.{
  commit_segment, commit_transcations_in_epoch, end_epoch, leave_batcher, abort_segment,
  abort_transaction_tx,
}
use cs_453_concurrent_algori.Epoch.Leaving.{next_epoch, one_less}
use cs_453_concurrent_algori.Tm.{AllocMemory, tm_begin, tm_begin_woken, tm_alloc, tm_free}

abbrev pub SameBatcher : Region → Region → Type 0
SameBatcher r r' = r'.batcher ≡ r.batcher

commit_segment-batcher : (k : ℕ) (r r' : Region) → commit_segment k r ≡ done r' → SameBatcher r r'
unfolding commit_segment
commit_segment-batcher k r r' e = ground arith

commit-batcher : (r r' : Region) → commit_transcations_in_epoch r ≡ done r' → SameBatcher r r'
unfolding commit_transcations_in_epoch
commit-batcher r r' e =
    for_range_keeps SameBatcher commit_segment (λ s. refl) (λ s t u p q. q ∙ p)
      commit_segment-batcher r.n_segments 0 r r' e

-- The batcher when a transaction has left
abbrev pub batcher_left : Batcher → Batcher
batcher_left b = if is_pos b.n_remaining 1 then next_epoch b else one_less b

-- The region with the lock of the batcher held
abbrev locked : Region → Region
locked r = record r { batcher = record r.batcher { lock = record r.batcher.lock { mutex = true } } }

end_epoch-batcher :
    (r r' : Region) (x : Bool) → end_epoch r ≡ done (r', x) → r'.batcher ≡ next_epoch r.batcher
unfolding end_epoch
end_epoch-batcher r r' x e =
    let (t, run, rest) = >>=-eq-done (commit_transcations_in_epoch r) _ e in
    ground (arith, rest, commit-batcher r t run)

last_then :
    (r r' : Region) (tx : ℕ) (x : Bool)
    → r.batcher.lock.mutex ≡ false
    → is_pos r.batcher.n_remaining 1 ≡ true
    → leave_batcher r tx ≡ done (r', x)
    → end_epoch (locked r) ≡ done (r', x)
unfolding leave_batcher
last_then r r' tx x h last e = ground arith

not_last_then :
    (r r' : Region) (tx : ℕ) (x : Bool)
    → r.batcher.lock.mutex ≡ false
    → is_pos r.batcher.n_remaining 1 ≡ false
    → leave_batcher r tx ≡ done (r', x)
    → r'.batcher ≡ one_less r.batcher
unfolding leave_batcher
not_last_then r r' tx x h last e = ground arith

pub leave_batcher-batcher :
    (r r' : Region) (tx : ℕ) (x : Bool)
    → r.batcher.lock.mutex ≡ false
    → leave_batcher r tx ≡ done (r', x)
    → r'.batcher ≡ batcher_left r.batcher
leave_batcher-batcher r r' tx x h e = elim (Bool-cases (is_pos r.batcher.n_remaining 1)) [
  | inr more ↦ ground (arith, not_last_then r r' tx x h more e)
  | inl last ↦ ground (arith, end_epoch-batcher (locked r) r' x (last_then r r' tx x h last e))
]

abort_segment-batcher :
    (tx k : ℕ) (r r' : Region) → abort_segment tx k r ≡ done r' → SameBatcher r r'
unfolding abort_segment
abort_segment-batcher tx k r r' e = ground arith

pub abort-batcher :
    (r r' : Region) (tx : ℕ) (x : Bool)
    → r.batcher.lock.mutex ≡ false
    → abort_transaction_tx r tx ≡ done (r', x)
    → r'.batcher ≡ batcher_left r.batcher
unfolding abort_transaction_tx
abort-batcher r r' tx x h e =
    let (t, run, rest) = >>=-eq-done (for_range r.n_segments 0 (abort_segment tx) r) _ e in
    let ((u, y), left, last) = >>=-eq-done (leave_batcher t tx) _ rest in
    let same : t.batcher ≡ r.batcher =
      for_range_keeps SameBatcher (abort_segment tx) (λ s. refl) (λ s t u p q. q ∙ p)
        (abort_segment-batcher tx) r.n_segments 0 r t run in
    ground (arith, last, leave_batcher-batcher t u tx y (ground arith) left)

pub tm_alloc-batcher :
    (mem : AllocMemory) (r r' : Region) (size status : ℕ) (target : Option ℕ)
    → tm_alloc mem r size ≡ done (r', status, target)
    → SameBatcher r r'
unfolding tm_alloc
tm_alloc-batcher mem r r' size status target e = ground arith

pub abort_false :
    (r r' : Region) (tx : ℕ) (x : Bool) → abort_transaction_tx r tx ≡ done (r', x) → x ≡ false
unfolding abort_transaction_tx
abort_false r r' tx x e =
    let (t, run, rest) = >>=-eq-done (for_range r.n_segments 0 (abort_segment tx) r) _ e in
    let ((u, y), left, last) = >>=-eq-done (leave_batcher t tx) _ rest in cc

-- The region with the global lock let go
abbrev pub unlocked : Region → Region
unlocked r = record r { global_lock = record r.global_lock { mutex = false } }

-- A `tm_free` that goes on changed nothing of the batcher; one that does not, aborted.
pub tm_free-batcher :
    (r r' : Region) (tx target : ℕ) → tm_free r tx target ≡ done (r', true) → SameBatcher r r'
unfolding tm_free
tm_free-batcher r r' tx target e = ground (arith, abort_false (unlocked r) r' tx true)

pub tm_free_aborts-batcher :
    (r r' : Region) (tx target : ℕ)
    → r.batcher.lock.mutex ≡ false
    → tm_free r tx target ≡ done (r', false)
    → r'.batcher ≡ batcher_left r.batcher
unfolding tm_free
tm_free_aborts-batcher r r' tx target h e = ground (arith, abort-batcher (unlocked r) r' tx false h)

-- A first call of `tm_begin` that returns an id, and one that waits
pub tm_begin-entered :
    (r r' : Region) (ro : Bool) (id : ℕ)
    → r.batcher.lock.mutex ≡ false
    → tm_begin r ro ≡ done (r', entered id)
    → (r.batcher.n_remaining ≡ pos 0)
      × (id ≡ r.batcher.tx_id_generator)
      × (r'.batcher
          ≡ record r.batcher { n_in_epoch = 1; n_remaining = pos 1; tx_id_generator = suc id })
unfolding tm_begin
tm_begin-entered r r' ro id h e = ground arith

pub tm_begin-waits :
    (r r' : Region) (ro : Bool)
    → r.batcher.lock.mutex ≡ false
    → tm_begin r ro ≡ done (r', waits)
    → (r.batcher.n_remaining ≢ pos 0)
      × (r'.batcher ≡ record r.batcher {
        n_blocked = suc r.batcher.n_blocked;
        lock = record {
          mutex = false;
          all_tx_left_batcher = r.batcher.lock.all_tx_left_batcher + 1;
        };
      })
unfolding tm_begin
tm_begin-waits r r' ro h e = (ground arith, ground arith)

-- The second half of a call that waited
pub tm_begin_woken-batcher :
    (r r' : Region) (ro : Bool) (id : ℕ)
    → r.batcher.lock.mutex ≡ false
    → tm_begin_woken r ro ≡ done (r', id)
    → (id ≡ r.batcher.tx_id_generator)
      × (r'.batcher ≡ record r.batcher { tx_id_generator = suc id })
unfolding tm_begin_woken
tm_begin_woken-batcher r r' ro id h e = ground arith
