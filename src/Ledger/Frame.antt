-- ===== src/Ledger/Frame.antt =====
-- Running a block writes wallets and users only: the stored blocks are as before, also where it
-- raises.
use bachi_coin.Prelude.{
  ℕ, ◌≡◌, refl, ◌∙◌, none, some, List, [], ◌∷◌, arith, ℤ, pos, ◌+ℤ◌, ◌-ℤ◌, Bool-cases, inl, inr,
  Option, ltb_ℤ, ◌+◌,
}
use bachi_coin.Dict.{Key, Dict}
use bachi_coin.Exec.{Result, ok, err, Exec, for_each, gets, ◌>>=◌, ◌>>◌}
use bachi_coin.Block.{Block}
use bachi_coin.Tx.{Tx, TxType}
use bachi_coin.Wallet.{Rounding}
use bachi_coin.Ledger.{
  Run, Env, note_change, apply_debit, apply_credit, get_context_for_address, count_sender,
  credit_and_note, debit_and_note, debit_sender, credit_receiver, credit_system, debit_system,
  credit_pool_with_gas, dispatch, process_tx, process_txs, is_confirmed, unknown_type,
}
use bachi_coin.Ledger.Process.{
  advance_sender, increment_nonce, reconcile_user, run_block, write_nonce,
}

abbrev pub blocks_of : Run → Dict Block
blocks_of s = s.ledger.blocks

abbrev pub Keeps {ℓ} : {A : Type ℓ} → Exec Run A → Type 0
Keeps m = (s : Run) → blocks_of (m s).1 ≡ blocks_of s

module _ {ℓ κ} {A : Type ℓ} {B : Type κ} where
  Keeps-continue :
      (f : A → Exec Run B) (y : Result A × Run)
      → ((a : A) → Keeps (f a))
      → blocks_of (((λ _. y) >>= f) y.1).1 ≡ blocks_of y.1
  Keeps-continue f (ok a, s') h = h a s'
  Keeps-continue f (err e, s') h = refl

  Keeps-bind :
      (m : Exec Run A) (f : A → Exec Run B) → Keeps m → ((a : A) → Keeps (f a)) → Keeps (m >>= f)
  Keeps-bind m f hm hf s = Keeps-continue f (m s) hf ∙ hm s

Keeps-for_each {ℓ} :
    {A : Type ℓ} (xs : List A) (body : A → Exec Run (Unit {0}))
    → ((x : A) → Keeps (body x))
    → Keeps (for_each xs body)
Keeps-for_each [] body h s = refl
Keeps-for_each (x ∷ xs) body h s =
    Keeps-bind (body x) (λ _. for_each xs body) (h x) (λ _. Keeps-for_each xs body h) s

note_change-Keeps : (node : ℕ) (wid : Key) (c n : ℤ) → Keeps (note_change node wid c n)
unfolding note_change
note_change-Keeps node wid c n s = ground arith

apply_debit-Keeps : (r : Rounding) (node : ℕ) (wid : Key) (d : ℤ) → Keeps (apply_debit r node wid d)
unfolding apply_debit
apply_debit-Keeps r node wid d s = ground arith

apply_credit-Keeps :
    (r : Rounding) (node : ℕ) (wid : Key) (d : ℤ) → Keeps (apply_credit r node wid d)
unfolding apply_credit
apply_credit-Keeps r node wid d s = ground arith

context-Keeps : (env : Env) (addr : Option Key) → Keeps (get_context_for_address env addr)
unfolding get_context_for_address
context-Keeps env addr s = ground arith

count_sender-Keeps : (addr : Option Key) → Keeps (count_sender addr)
unfolding count_sender
count_sender-Keeps none s = refl
count_sender-Keeps (some _) s = refl

increment_nonce-Keeps : (node : ℕ) (addr : Key) (c : ℕ) → Keeps (increment_nonce node addr c)
unfolding increment_nonce write_nonce
increment_nonce-Keeps node addr c s = ground arith

reconcile_user-Keeps : (env : Env) (user : Key × ℕ) → Keeps (reconcile_user env user)
unfolding reconcile_user
reconcile_user-Keeps env (uid, node) s = ground arith

credit_and_note-Keeps :
    (r : Rounding) (node : ℕ) (wid : Key) (d : ℤ) → Keeps (credit_and_note r node wid d)
unfolding credit_and_note
credit_and_note-Keeps r node wid d =
    Keeps-bind (apply_credit r node wid d) (λ new. note_change node wid d new)
      (apply_credit-Keeps r node wid d) (note_change-Keeps node wid d)

debit_and_note-Keeps :
    (r : Rounding) (node : ℕ) (wid : Key) (d : ℤ) → Keeps (debit_and_note r node wid d)
unfolding debit_and_note
debit_and_note-Keeps r node wid d =
    Keeps-bind (apply_debit r node wid d) (λ new. note_change node wid (pos 0 -ℤ d) new)
      (apply_debit-Keeps r node wid d) (note_change-Keeps node wid (pos 0 -ℤ d))

module _ (env : Env) where
  debit_sender-Keeps : (addr : Option Key) (d : ℤ) → Keeps (debit_sender env addr d)
  unfolding debit_sender
  debit_sender-Keeps addr d =
      Keeps-bind (get_context_for_address env addr)
        (λ at. do
          new ← apply_debit env.rounding at.0 at.1 d
          count_sender addr
          note_change at.0 at.1 (pos 0 -ℤ d) new)
        (context-Keeps env addr)
        λ at.
          Keeps-bind (apply_debit env.rounding at.0 at.1 d)
            (λ new. count_sender addr >> note_change at.0 at.1 (pos 0 -ℤ d) new)
            (apply_debit-Keeps env.rounding at.0 at.1 d)
            λ new.
              Keeps-bind (count_sender addr) (λ _. note_change at.0 at.1 (pos 0 -ℤ d) new)
                (count_sender-Keeps addr) (λ _. note_change-Keeps at.0 at.1 (pos 0 -ℤ d) new)

  credit_receiver-Keeps : (addr : Option Key) (d : ℤ) → Keeps (credit_receiver env addr d)
  unfolding credit_receiver
  credit_receiver-Keeps addr d =
      Keeps-bind (get_context_for_address env addr) (λ at. credit_and_note env.rounding at.0 at.1 d)
        (context-Keeps env addr) (λ at. credit_and_note-Keeps env.rounding at.0 at.1 d)

  credit_system-Keeps : (system : Option Key) (d : ℤ) → Keeps (credit_system env system d)
  unfolding credit_system
  credit_system-Keeps none d s = refl
  credit_system-Keeps (some wid) d s = credit_and_note-Keeps env.rounding 0 wid d s

  debit_system-Keeps : (system : Option Key) (d : ℤ) → Keeps (debit_system env system d)
  unfolding debit_system
  debit_system-Keeps none d s = refl
  debit_system-Keeps (some wid) d s = debit_and_note-Keeps env.rounding 0 wid d s

  gas-Keeps : (fee : ℤ) → Keeps (credit_pool_with_gas env fee)
  unfolding credit_pool_with_gas
  gas-Keeps fee s = elim (Bool-cases (ltb_ℤ (pos 0) fee)) [
    | inl e ↦ rw e (credit_system-Keeps env.pool_wallet_id fee s)
    | inr e ↦ rw e refl
  ]

  debit_then-Keeps :
      (tx : Tx) (k : Exec Run (Unit {0}))
      → Keeps k
      → Keeps (debit_sender env tx.from_address (tx.amount +ℤ tx.total_fee) >> k)
  debit_then-Keeps tx k h =
      Keeps-bind (debit_sender env tx.from_address (tx.amount +ℤ tx.total_fee)) (λ _. k)
        (debit_sender-Keeps tx.from_address (tx.amount +ℤ tx.total_fee)) (λ _. h)

  dispatch-Keeps : (t : TxType) (tx : Tx) → Keeps (dispatch env t tx)
  unfolding dispatch unknown_type
  dispatch-Keeps TxType.mint tx s = credit_receiver-Keeps tx.to_address tx.amount s
  dispatch-Keeps TxType.reward tx s =
      Keeps-bind (credit_receiver env tx.to_address tx.amount)
        (λ _. debit_system env env.pool_wallet_id tx.amount)
        (credit_receiver-Keeps tx.to_address tx.amount)
        (λ _. debit_system-Keeps env.pool_wallet_id tx.amount) s
  dispatch-Keeps TxType.transfer tx s =
      debit_then-Keeps tx
        (credit_receiver env tx.to_address tx.amount >> credit_pool_with_gas env tx.total_fee)
        (Keeps-bind (credit_receiver env tx.to_address tx.amount)
          (λ _. credit_pool_with_gas env tx.total_fee)
          (credit_receiver-Keeps tx.to_address tx.amount) (λ _. gas-Keeps tx.total_fee))
        s
  dispatch-Keeps TxType.burn tx s =
      debit_then-Keeps tx
        (credit_system env env.burn_wallet_id tx.amount >> credit_pool_with_gas env tx.total_fee)
        (Keeps-bind (credit_system env env.burn_wallet_id tx.amount)
          (λ _. credit_pool_with_gas env tx.total_fee)
          (credit_system-Keeps env.burn_wallet_id tx.amount) (λ _. gas-Keeps tx.total_fee))
        s
  dispatch-Keeps TxType.slash tx s =
      debit_then-Keeps tx (credit_system env env.pool_wallet_id (tx.amount +ℤ tx.total_fee))
        (credit_system-Keeps env.pool_wallet_id (tx.amount +ℤ tx.total_fee)) s
  dispatch-Keeps TxType.stake tx s =
      debit_then-Keeps tx (credit_system env env.pool_wallet_id (tx.amount +ℤ tx.total_fee))
        (credit_system-Keeps env.pool_wallet_id (tx.amount +ℤ tx.total_fee)) s
  dispatch-Keeps TxType.unstake tx s =
      Keeps-bind (debit_system env env.pool_wallet_id tx.amount)
        (λ _. credit_receiver env tx.to_address tx.amount)
        (debit_system-Keeps env.pool_wallet_id tx.amount)
        (λ _. credit_receiver-Keeps tx.to_address tx.amount) s
  dispatch-Keeps TxType.pool tx s = refl
  dispatch-Keeps _ tx s = refl

  process_tx-Keeps : (tx : Tx) → Keeps (process_tx env tx)
  unfolding process_tx
  process_tx-Keeps tx s = elim (Bool-cases (is_confirmed tx.tx_hash s)) [
    | inl e ↦ rw e refl
    | inr e ↦
        rw e (dispatch-Keeps tx.tx_type tx (record s { processed_count = s.processed_count + 1 }))
  ]

  advance_sender-Keeps : (sender : Key × ℕ) → Keeps (advance_sender env sender)
  unfolding advance_sender
  advance_sender-Keeps (addr, count) s =
      Keeps-bind (get_context_for_address env (some addr)) (λ at. increment_nonce at.0 addr count)
        (context-Keeps env (some addr)) (λ at. increment_nonce-Keeps at.0 addr count) s

  -- The stored blocks after a whole block has run.
  pub run_block-Keeps : (txs : List Tx) → Keeps (run_block env txs)
  unfolding run_block process_txs
  run_block-Keeps txs =
      Keeps-bind (for_each txs (process_tx env))
        (λ _. do
          counts ← gets (λ s. s.sender_tx_counts)
          for_each counts (advance_sender env)
          users ← gets (λ s. s.users_to_reconcile)
          for_each users (reconcile_user env))
        (Keeps-for_each txs (process_tx env) process_tx-Keeps)
        λ _ s.
          Keeps-bind (for_each s.sender_tx_counts (advance_sender env))
            (λ _. do users ← gets (λ s. s.users_to_reconcile); for_each users (reconcile_user env))
            (Keeps-for_each s.sender_tx_counts (advance_sender env) advance_sender-Keeps)
            (λ _ s'.
              Keeps-for_each s'.users_to_reconcile (reconcile_user env) (reconcile_user-Keeps env)
                s')
            s
