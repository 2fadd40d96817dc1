-- ===== src/Mempool/Submit.antt =====
-- What `submit_tx` does to the mempool, whatever validator it is given, and with the rules of
-- mempool_config.py.
use bachi_coin.Prelude.{
  ℕ, ◌<◌, ◌≡◌, refl, ap, sym, ◌∙◌, ◌⊎◌, true, false, Option, none, some, List, [], ◌∷◌, ◌++◌, arith,
  ◌==◌, length, leb, Bool-cases, inl, inr, length-append, ltb_ℤ,
}
use bachi_coin.Dict.{Key, put}
use bachi_coin.Exec.{
  Error, Result, ok, err, no_tx_hash, duplicate_nonce, validation_failed, fee_below_minimum,
  pool_full,
}
use bachi_coin.Tx.{Tx}
use bachi_coin.Admission.{Rejection, PoolState, AccountState, max_pool_size, min_priority_fee}
use bachi_coin.Mempool.{
  Pool, reload_state, persist_state, add_to_queue, create_queue_entry, update_fee_statistics,
  submit_checked, submit_tx, get_account_state, get_account_transactions, get_current_pool_state,
  is_nonce_taken, sender_of, index_queue, load_saved,
}
use bachi_coin.Mempool.Queue.{IsWellFormed, AllDistinct-append, index_queue-add}

-- The pool with an accepted transaction.
abbrev pub accepted : ℕ → Tx → Pool → Pool
accepted now tx s = persist_state (record (add_to_queue (create_queue_entry now tx) s) {
  fee_stats = update_fee_statistics s.fee_stats tx;
})

get_account_state-fresh :
    (canonical_nonce : Key → ℕ) (addr : Option Key) (s : Pool)
    → reload_state s ≡ s
    → (get_account_state canonical_nonce addr s).1 ≡ s
unfolding get_account_state get_account_transactions
get_account_state-fresh canonical_nonce none s h = refl
get_account_state-fresh canonical_nonce (some addr) s h = h

module _ (validator : Tx → PoolState → AccountState → List Rejection) (now : ℕ) where
  -- What is known of an accepted transaction.
  pub record IsAdmitted (a : AccountState) (tx : Tx) (s : Pool) : Type 0 where
    pub no_errors : length (validator tx (get_current_pool_state s.tx_queue) a) ≡ 0
    pub new_nonce : is_nonce_taken tx s.tx_queue ≡ false
    pub room : length s.tx_queue < max_pool_size

  abbrev Refuses : Result Key × Pool → Pool → Type 0
  Refuses y s = (e : Error) × (y ≡ (err e, s))

  submit_checked-cases :
      (tx : Tx) (a : AccountState) (s : Pool)
      → is_nonce_taken tx s.tx_queue ≡ false
      → let y = submit_checked validator now tx (get_current_pool_state s.tx_queue) (a, s) in
        Refuses y s ⊎ (IsAdmitted a tx s × (y ≡ (ok tx.tx_hash, accepted now tx s)))
  unfolding submit_checked
  submit_checked-cases tx a s h =
      elim (Bool-cases (leb 1 (length (validator tx (get_current_pool_state s.tx_queue) a)))) [
        | inl errors ↦ inl (validation_failed, ground (arith, errors))
        | inr valid ↦ elim (Bool-cases (ltb_ℤ tx.max_priority_fee_per_gas min_priority_fee)) [
          | inl low ↦ inl (fee_below_minimum, ground (arith, valid, low))
          | inr enough ↦ elim (Bool-cases (leb max_pool_size (length s.tx_queue))) [
            | inl full ↦ inl (pool_full, ground (arith, valid, enough, full))
            | inr room ↦ inr (
              record {
                no_errors = ground (arith, valid);
                new_nonce = h;
                room = ground (arith, room);
              },
              ground (arith, valid, enough, room),
            )
          ]
        ]
      ]

  submit_tx-checked :
      (canonical_nonce : Key → ℕ) (tx : Tx) (s : Pool)
      → (tx.tx_hash == 0) ≡ false
      → is_nonce_taken tx s.tx_queue ≡ false
      → reload_state s ≡ s
      → submit_tx validator now canonical_nonce tx s
        ≡ submit_checked validator now tx
            (get_current_pool_state s.tx_queue)
            ((get_account_state canonical_nonce (sender_of tx) s).0, s)
  unfolding submit_tx
  submit_tx-checked canonical_nonce tx s p q h =
      rw (p, q)
        (ap
          (λ s'.
            submit_checked validator now tx (get_current_pool_state s.tx_queue)
              ((get_account_state canonical_nonce (sender_of tx) s).0, s'))
          (get_account_state-fresh canonical_nonce (sender_of tx) s h))

  submit_tx-no_hash :
      (canonical_nonce : Key → ℕ) (tx : Tx) (s : Pool)
      → (tx.tx_hash == 0) ≡ true
      → submit_tx validator now canonical_nonce tx s ≡ (err no_tx_hash, s)
  unfolding submit_tx
  submit_tx-no_hash canonical_nonce tx s p = rw p refl

  submit_tx-taken :
      (canonical_nonce : Key → ℕ) (tx : Tx) (s : Pool)
      → (tx.tx_hash == 0) ≡ false
      → is_nonce_taken tx s.tx_queue ≡ true
      → submit_tx validator now canonical_nonce tx s ≡ (err duplicate_nonce, s)
  unfolding submit_tx
  submit_tx-taken canonical_nonce tx s p q = rw (p, q) refl

  -- A submission to a pool that agrees with its storage is refused and leaves the pool alone, or it
  -- passes every test and adds the transaction.
  pub submit_tx-cases :
      (canonical_nonce : Key → ℕ) (tx : Tx) (s : Pool)
      → reload_state s ≡ s
      → let y = submit_tx validator now canonical_nonce tx s in
        Refuses y s
        ⊎ (IsAdmitted (get_account_state canonical_nonce (sender_of tx) s).0 tx s
            × (y ≡ (ok tx.tx_hash, accepted now tx s)))
  submit_tx-cases canonical_nonce tx s h = elim (Bool-cases (tx.tx_hash == 0)) [
    | inl missing ↦ inl (no_tx_hash, submit_tx-no_hash canonical_nonce tx s missing)
    | inr hashed ↦ elim (Bool-cases (is_nonce_taken tx s.tx_queue)) [
      | inl taken ↦ inl (duplicate_nonce, submit_tx-taken canonical_nonce tx s hashed taken)
      | inr new ↦
          rw (submit_tx-checked canonical_nonce tx s hashed new h)
            (submit_checked-cases tx (get_account_state canonical_nonce (sender_of tx) s).0 s new)
    ]
  ]

  accepted-IsWellFormed :
      (tx : Tx) (s : Pool)
      → IsWellFormed s
      → is_nonce_taken tx s.tx_queue ≡ false
      → length s.tx_queue < max_pool_size
      → IsWellFormed (accepted now tx s)
  unfolding persist_state add_to_queue create_queue_entry reload_state load_saved
  accepted-IsWellFormed tx s h new room =
      let e = create_queue_entry now tx in
      let lookup : put tx.tx_hash (length s.tx_queue) s.tx_lookup
          ≡ index_queue 0 (s.tx_queue ++ e ∷ []) [] =
        ap (put tx.tx_hash (length s.tx_queue)) h.lookup ∙ sym (index_queue-add s.tx_queue e) in
      record {
        fresh = ap (λ d. record (accepted now tx s) { tx_lookup = d }) (sym lookup);
        lookup = lookup;
        distinct = AllDistinct-append s.tx_queue e h.distinct new;
        within = omega (arith, length-append s.tx_queue (e ∷ []));
      }

  -- Every submission keeps a pool well-formed, whether it is accepted or refused: the lookup table
  -- and the stored copy agree with the queue, no sender has a nonce twice, and the queue is within
  -- the pool's size.
  pub submit_tx-IsWellFormed :
      (canonical_nonce : Key → ℕ) (tx : Tx) (s : Pool)
      → IsWellFormed s
      → IsWellFormed (submit_tx validator now canonical_nonce tx s).1
  submit_tx-IsWellFormed canonical_nonce tx s h =
      elim (submit_tx-cases canonical_nonce tx s h.fresh) [
        | inl (e, p) ↦ rw p h
        | inr (admitted, p) ↦ rw p (accepted-IsWellFormed tx s h admitted.new_nonce admitted.room)
      ]
