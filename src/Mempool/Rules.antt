-- ===== src/Mempool/Rules.antt =====
-- A mempool with the validator that its factory gives it, `validate_mempool_transaction`: the
-- limit for each account, and which nonces it looks at.
use bachi_coin.Prelude.{
  ℕ, ◌+◌, ◌≤◌, ◌<◌, ◌≡◌, refl, ap, true, Option, none, some, List, [], ◌∷◌, ◌++◌, arith, ◌==◌,
  length, leb, if◌then◌else◌, Bool-cases, inl, inr, length-append, ltb_ℤ,
}
use bachi_coin.Dict.{Key}
use bachi_coin.Exec.{
  Error, ok, err, no_tx_hash, duplicate_nonce, validation_failed, fee_below_minimum, pool_full,
}
use bachi_coin.Tx.{Tx}
use bachi_coin.Admission.{
  PoolState, AccountState, Formats, max_pending_per_account, max_pool_size, min_priority_fee,
  max_nonce_gap, same_option, validate_transaction_format, validate_pool_admission,
  validate_nonce_sequence, validate_mempool_transaction, nonce_errors,
}
use bachi_coin.Mempool.{
  Entry, Pool, persist_state, add_to_queue, create_queue_entry, submit_checked, submit_tx,
  get_account_state, get_account_transactions, get_current_pool_state, get_pending_nonces,
  is_nonce_taken, sender_of, count_from,
}
use bachi_coin.Mempool.Queue.{IsWellFormed}
use bachi_coin.Mempool.Submit.{submit_tx-cases, accepted}

-- No sender, and not the transactions without one, have more entries than the limit.
abbrev pub WithinAccountLimit : Pool → Type 0
WithinAccountLimit s = (addr : Option Key) → count_from addr s.tx_queue ≤ max_pending_per_account

count_from-append :
    (addr : Option Key) (es : List Entry) (e : Entry)
    → count_from addr (es ++ e ∷ [])
      ≡ (if same_option e.tx.from_address addr then count_from addr es + 1 else count_from addr es)
count_from-append addr [] e = ground arith
count_from-append addr (x ∷ es) e = ground (arith, count_from-append addr es e)

same_option-eq : (a b : Option ℕ) → same_option a b ≡ true → a ≡ b
same_option-eq none none h = refl
same_option-eq (some a) (some b) h = ground (arith, h)
same_option-eq none (some b) h = cc
same_option-eq (some a) none h = cc

no_admission_errors :
    (f : Formats) (tx : Tx) (p : PoolState) (a : AccountState)
    → length (validate_mempool_transaction f tx p a) ≡ 0
    → (length (validate_pool_admission f tx p) ≡ 0) × (length (nonce_errors tx.nonce a) ≡ 0)
unfolding validate_mempool_transaction
no_admission_errors f tx p a h =
    let all_errors : length (
          validate_transaction_format f tx
          ++ validate_pool_admission f tx p
          ++ nonce_errors tx.nonce a)
        ≡ 0 =
      h in
    omega (
      arith,
      all_errors,
      length-append (validate_transaction_format f tx ++ validate_pool_admission f tx p)
          (nonce_errors tx.nonce a),
      length-append (validate_transaction_format f tx) (validate_pool_admission f tx p),
    )

room_for_account :
    (f : Formats) (tx : Tx) (p : PoolState)
    → length (validate_pool_admission f tx p) ≡ 0
    → p.account_pending tx.from_address < max_pending_per_account
unfolding validate_pool_admission
room_for_account f tx p h = ground (arith, h)

count_after :
    (e : Entry) (es : List Entry) (addr : Option Key)
    → count_from e.tx.from_address es < max_pending_per_account
    → count_from addr es ≤ max_pending_per_account
    → count_from addr (es ++ e ∷ []) ≤ max_pending_per_account
count_after e es addr room limit = elim (Bool-cases (same_option e.tx.from_address addr)) [
  | inl same ↦
      let here = ap (λ a. count_from a es) (same_option-eq e.tx.from_address addr same) in
      ground (arith, count_from-append addr es e, same, here)
  | inr other ↦ ground (arith, count_from-append addr es e, other)
]

nonce_errors-canonical :
    (n next : Option ℕ) (pending : List ℕ) (c c' : Option ℕ)
    → nonce_errors n (record { canonical_nonce = c; next_nonce = next; pending_nonces = pending })
      ≡ nonce_errors n
          (record { canonical_nonce = c'; next_nonce = next; pending_nonces = pending })
unfolding validate_nonce_sequence
nonce_errors-canonical none next pending c c' = refl
nonce_errors-canonical (some n) next pending c c' = refl

gap_is_error :
    (n : ℕ) (a : AccountState)
    → a.next_nonce ≡ none
    → max_nonce_gap < n
    → length (nonce_errors (some n) a) ≡ 0
    → ⊥
unfolding validate_nonce_sequence
gap_is_error n a e gap h = ground (arith, e, gap, h)

module _ (f : Formats) (now : ℕ) (canonical_nonce : Key → ℕ) where
  state_has_no_next :
      (addr : Option Key) (s : Pool)
      → (get_account_state canonical_nonce addr s).0.next_nonce ≡ none
  unfolding get_account_state
  state_has_no_next none s = refl
  state_has_no_next (some addr) s = refl

  -- Every submission keeps each account within its limit of pending transactions.
  pub submit_tx-WithinAccountLimit :
      (tx : Tx) (s : Pool)
      → IsWellFormed s
      → WithinAccountLimit s
      → WithinAccountLimit (submit_tx (validate_mempool_transaction f) now canonical_nonce tx s).1
  unfolding persist_state add_to_queue create_queue_entry get_current_pool_state
  submit_tx-WithinAccountLimit tx s h limit addr =
      elim (submit_tx-cases (validate_mempool_transaction f) now canonical_nonce tx s h.fresh) [
        | inl (e, p) ↦ rw p (limit addr)
        | inr (admitted, p) ↦
            let (no_admission, _) =
              no_admission_errors f tx (get_current_pool_state s.tx_queue)
                (get_account_state canonical_nonce (sender_of tx) s).0 admitted.no_errors in
            let room = room_for_account f tx (get_current_pool_state s.tx_queue) no_admission in
            rw p (count_after (create_queue_entry now tx) s.tx_queue addr room (limit addr))
      ]

  checked-canonical :
      (tx : Tx) (p : PoolState) (s : Pool) (other : Key → ℕ) (addr : Option Key)
      → submit_checked
          (validate_mempool_transaction f)
          now
          tx
          p
          (get_account_state canonical_nonce addr s)
        ≡ submit_checked (validate_mempool_transaction f) now tx p (get_account_state other addr s)
  unfolding submit_checked get_account_state validate_mempool_transaction
  checked-canonical tx p s other none = refl
  checked-canonical tx p s other (some addr) =
      let (txs, s') = get_account_transactions addr s in
      ap
        (λ errors.
          if leb 1
            (length (validate_transaction_format f tx ++ validate_pool_admission f tx p ++ errors))
          then (err validation_failed, s')
          else if ltb_ℤ tx.max_priority_fee_per_gas min_priority_fee
          then (err fee_below_minimum, s')
          else if leb max_pool_size (length s'.tx_queue)
          then (err pool_full, s')
          else (ok tx.tx_hash, accepted now tx s'))
        (nonce_errors-canonical tx.nonce none (get_pending_nonces txs) (some (canonical_nonce addr))
          (some (other addr)))

  -- The canonical nonces of the accounts make no difference to a submission.
  pub submit_tx-canonical :
      (other : Key → ℕ) (tx : Tx) (s : Pool)
      → submit_tx (validate_mempool_transaction f) now canonical_nonce tx s
        ≡ submit_tx (validate_mempool_transaction f) now other tx s
  unfolding submit_tx
  submit_tx-canonical other tx s =
      ap
        (λ y.
          if tx.tx_hash == 0
          then (err no_tx_hash, s)
          else if is_nonce_taken tx s.tx_queue
          then (err duplicate_nonce, s)
          else y)
        (checked-canonical tx (get_current_pool_state s.tx_queue) s other (sender_of tx))

  -- A nonce above 1000 is refused, however many of the sender's transactions are confirmed.
  pub submit_tx-nonce_gap :
      (tx : Tx) (s : Pool) (n : ℕ)
      → IsWellFormed s
      → tx.nonce ≡ some n
      → max_nonce_gap < n
      → (e : Error) × (submit_tx (validate_mempool_transaction f) now canonical_nonce tx s
          ≡ (err e, s))
  submit_tx-nonce_gap tx s n h e gap =
      elim (submit_tx-cases (validate_mempool_transaction f) now canonical_nonce tx s h.fresh) [
        | inl refused ↦ refused
        | inr (admitted, _) ↦
            let a = (get_account_state canonical_nonce (sender_of tx) s).0 in
            let (_, none_found) =
              no_admission_errors f tx (get_current_pool_state s.tx_queue) a admitted.no_errors in
            absurd (gap_is_error n a (state_has_no_next (sender_of tx) s) gap (rw e at none_found))
      ]
