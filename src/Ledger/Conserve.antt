-- ===== src/Ledger/Conserve.antt =====
-- The supply of coins over a whole block: `update_block_state` of postprocess_state.py against the
-- sum of what its unconfirmed transactions mean to add.
use bachi_coin.Prelude.{
  ℕ, ◌+◌, ◌≡◌, refl, ◌∙◌, Bool, false, none, some, arith, ℤ, pos, ◌+ℤ◌, ◌≤ℤ◌, int_laws,
  if◌then◌else◌, Bool-cases, inl, inr, parts_of_eq, List, [], ◌∷◌, sym,
}
use bachi_coin.Dict.{Key, Dict, get}
use bachi_coin.Exec.{Result, ok, gets, ◌>>=◌, ◌>>◌, for_each}
use bachi_coin.Tx.{Tx, TxType}
use bachi_coin.Wallet.{IsExact}
use bachi_coin.Ledger.{TxRecord, Ledger, Run, Env, process_tx, process_txs, is_confirmed}
use bachi_coin.Ledger.Process.{advance_sender, reconcile_user, run_block, start_run}
use bachi_coin.Ledger.Totals.{AllSound, total}
use bachi_coin.Ledger.Moves.{Moves, Moves-bind, Moves-eq}
use bachi_coin.Ledger.Settled.{advance_sender-Moves, reconcile_user-Moves, for_each-Moves}
use bachi_coin.Ledger.Supply.{supply_change, if_some_bounds, IsPositive, dispatch-Moves}

abbrev pub confirmed_in : Key → Dict TxRecord → Bool
confirmed_in hash d = elim (get hash d) [ none ↦ false | some r ↦ r.confirmed ]

-- What the transactions of a block add to the total, given the transaction records: those that
-- are confirmed already add nothing.
abbrev pub block_supply : Env → Dict TxRecord → List Tx → ℤ
block_supply env d [] = pos 0
block_supply env d (tx ∷ txs) =
    (if confirmed_in tx.tx_hash d
      then pos 0
      else supply_change env tx.tx_type tx.amount tx.total_fee)
    +ℤ block_supply env d txs

abbrev pub sum_amounts : List Tx → ℤ
sum_amounts [] = pos 0
sum_amounts (tx ∷ txs) = tx.amount +ℤ sum_amounts txs

abbrev pub AllPositive : List Tx → Type 0
AllPositive [] = Unit
AllPositive (tx ∷ txs) = IsPositive tx × AllPositive txs

supply_change-le :
    (env : Env) (type : TxType) (amount fee : ℤ)
    → pos 0 ≤ℤ amount
    → pos 0 ≤ℤ fee
    → supply_change env type amount fee ≤ℤ amount
supply_change-le env type amount fee p q =
    let pool = if_some_bounds env.pool_wallet_id amount p in
    let pool_fee = if_some_bounds env.pool_wallet_id fee q in
    let pool_all = if_some_bounds env.pool_wallet_id (amount +ℤ fee) (omega (int_laws, p, q)) in
    let burn = if_some_bounds env.burn_wallet_id amount p in
    elim type as (λ t. supply_change env t amount fee ≤ℤ amount) [
      | TxType.mint ↦ omega arith
      | TxType.reward ↦ omega int_laws
      | TxType.transfer ↦ omega int_laws
      | TxType.burn ↦ omega int_laws
      | TxType.slash ↦ omega int_laws
      | TxType.stake ↦ omega int_laws
      | TxType.unstake ↦ omega int_laws
      | _ ↦ omega (arith, p)
    ]

sum_amounts-nonneg : (txs : List Tx) → AllPositive txs → pos 0 ≤ℤ sum_amounts txs
sum_amounts-nonneg [] h = omega arith
sum_amounts-nonneg (tx ∷ txs) h = omega (int_laws, h.0.amount_nonneg, sum_amounts-nonneg txs h.1)

-- What follows a call may use that the transaction records are those from before it.
txs-of_Moves :
    {A : Type 0} (s s' : Run) (d : ℤ) (y : Result A × Run) (a : A)
    → Moves s d y
    → y ≡ (ok a, s')
    → s'.ledger.txs ≡ s.ledger.txs
txs-of_Moves s s' d y a h e = let (_, _, same) = rw e at h in same

module _ (env : Env) (limit : ℕ) (exact : IsExact env.rounding limit) where
  process_tx-Moves :
      (tx : Tx) (s : Run)
      → IsPositive tx
      → AllSound s
      → total s +ℤ tx.amount ≤ℤ pos limit
      → Moves s
          (if confirmed_in tx.tx_hash s.ledger.txs
            then pos 0
            else supply_change env tx.tx_type tx.amount tx.total_fee)
          (process_tx env tx s)
  unfolding process_tx total
  process_tx-Moves tx s p sound q = elim (Bool-cases (is_confirmed tx.tx_hash s)) [
    | inl old ↦ rw old (sound, omega int_laws, refl)
    | inr new ↦ rw new (
        dispatch-Moves env limit exact tx.tx_type tx
          (record s { processed_count = s.processed_count + 1 }) p sound q)
  ]

  process_txs-Moves :
      (txs : List Tx) (s : Run) (d : Dict TxRecord)
      → d ≡ s.ledger.txs
      → AllPositive txs
      → AllSound s
      → total s +ℤ sum_amounts txs ≤ℤ pos limit
      → Moves s (block_supply env d txs) (process_txs env txs s)
  unfolding process_txs
  process_txs-Moves [] s d e p sound q = (sound, omega int_laws, refl)
  process_txs-Moves (tx ∷ txs) s d e p sound q =
      let change =
        if confirmed_in tx.tx_hash d
        then pos 0
        else supply_change env tx.tx_type tx.amount tx.total_fee in
      let first : Moves s change (process_tx env tx s) =
        rw e (process_tx-Moves tx s p.0 sound (omega (int_laws, sum_amounts-nonneg txs p.1))) in
      let le : change ≤ℤ tx.amount = ground (
        arith,
        p.0.amount_nonneg,
        supply_change-le env tx.tx_type tx.amount tx.total_fee p.0.amount_nonneg p.0.fee_nonneg,
      ) in
      Moves-bind (process_tx env tx) (λ _. process_txs env txs) change (block_supply env d txs) s
        first
        λ a s' at sound' e'.
          process_txs-Moves txs s' d
            (e ∙ sym (txs-of_Moves s s' change (process_tx env tx s) a first at)) p.1 sound'
            (omega (int_laws, parts_of_eq _ _ e'))

  -- A block that runs to its end: the nonces and the users' totals leave the wallets' total alone.
  pub run_block-Moves :
      (txs : List Tx) (l : Ledger)
      → AllPositive txs
      → AllSound (start_run l)
      → total (start_run l) +ℤ sum_amounts txs ≤ℤ pos limit
      → Moves (start_run l) (block_supply env l.txs txs) (run_block env txs (start_run l))
  unfolding run_block
  run_block-Moves txs l p sound q =
      Moves-eq (block_supply env l.txs txs +ℤ (pos 0 +ℤ pos 0)) (block_supply env l.txs txs)
        (start_run l) (run_block env txs (start_run l)) (omega int_laws)
        (Moves-bind (process_txs env txs)
          (λ _. do
            counts ← gets (λ s. s.sender_tx_counts)
            for_each counts (advance_sender env)
            users ← gets (λ s. s.users_to_reconcile)
            for_each users (reconcile_user env))
          (block_supply env l.txs txs) (pos 0 +ℤ pos 0) (start_run l)
          (process_txs-Moves txs (start_run l) l.txs refl p sound q)
          λ _ s' _ sound' _.
            Moves-bind (for_each s'.sender_tx_counts (advance_sender env))
              (λ _. do
                users ← gets (λ s. s.users_to_reconcile)
                for_each users (reconcile_user env))
              (pos 0) (pos 0) s'
              (for_each-Moves env s'.sender_tx_counts (advance_sender env) s' sound'
                (advance_sender-Moves env))
              λ _ s'' _ sound'' _.
                for_each-Moves env s''.users_to_reconcile (reconcile_user env) s'' sound''
                  (reconcile_user-Moves env))
