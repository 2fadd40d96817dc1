-- ===== src/Ledger/Supply.antt =====
-- The supply of coins over a block: what each type of transaction adds to the total of all wallets.
use bachi_coin.Prelude.{
  ℕ, ◌≡◌, refl, Option, none, some, arith, ℤ, pos, ◌+ℤ◌, ◌-ℤ◌, ◌≤ℤ◌, int_laws, parts_of_eq,
}
use bachi_coin.Dict.{Key}
use bachi_coin.Exec.{Exec, ◌>>◌}
use bachi_coin.Tx.{Tx, TxType}
use bachi_coin.Wallet.{IsExact}
use bachi_coin.Ledger.{
  Run, Env, debit_sender, credit_receiver, credit_system, debit_system, credit_pool_with_gas,
  unknown_type, dispatch,
}
use bachi_coin.Ledger.Totals.{AllSound, total}
use bachi_coin.Ledger.Moves.{Moves, Moves-bind, Moves-keep}
use bachi_coin.Ledger.Handlers.{
  if_some, credit_receiver-Moves, debit_sender-Moves, credit_system-Moves, debit_system-Moves,
  credit_pool_with_gas-Moves,
}

-- What a transaction adds to the total: its minted amount, less what leaves a sender and reaches
-- no wallet, because there is no burn or no pool wallet.
abbrev pub supply_change : Env → TxType → ℤ → ℤ → ℤ
supply_change env TxType.mint amount fee = amount
supply_change env TxType.reward amount fee = amount +ℤ (pos 0 -ℤ if_some env.pool_wallet_id amount)
supply_change env TxType.transfer amount fee =
    pos 0 -ℤ (amount +ℤ fee) +ℤ (amount +ℤ if_some env.pool_wallet_id fee)
supply_change env TxType.burn amount fee =
    pos 0
    -ℤ (amount +ℤ fee)
    +ℤ (if_some env.burn_wallet_id amount +ℤ if_some env.pool_wallet_id fee)
supply_change env TxType.slash amount fee =
    pos 0 -ℤ (amount +ℤ fee) +ℤ if_some env.pool_wallet_id (amount +ℤ fee)
supply_change env TxType.stake amount fee =
    pos 0 -ℤ (amount +ℤ fee) +ℤ if_some env.pool_wallet_id (amount +ℤ fee)
supply_change env TxType.unstake amount fee = pos 0 -ℤ if_some env.pool_wallet_id amount +ℤ amount
supply_change env _ amount fee = pos 0

-- A transaction with no negative amount.
pub record IsPositive (tx : Tx) : Type 0 where
  pub amount_nonneg : pos 0 ≤ℤ tx.amount
  pub fee_nonneg : pos 0 ≤ℤ tx.total_fee

pub if_some_bounds :
    (system : Option Key) (d : ℤ)
    → pos 0 ≤ℤ d
    → (pos 0 ≤ℤ if_some system d) × (if_some system d ≤ℤ d)
if_some_bounds none d p = (omega arith, omega arith)
if_some_bounds (some _) d p = (omega arith, omega arith)

ledger-unknown_type : (hash : Key) (s : Run) → (unknown_type hash s).1.ledger ≡ s.ledger
unfolding unknown_type
ledger-unknown_type hash s = refl

module _ (env : Env) (limit : ℕ) (exact : IsExact env.rounding limit) where
  sender_then :
      (m : Exec Run (Unit {0})) (addr : Option Key) (d e : ℤ) (s : Run)
      → AllSound s
      → pos 0 ≤ℤ d
      → total s ≤ℤ pos limit
      → ((s' : Run) → AllSound s' → total s' ≡ total s +ℤ (pos 0 -ℤ d) → Moves s' e (m s'))
      → Moves s (pos 0 -ℤ d +ℤ e) ((debit_sender env addr d >> m) s)
  sender_then m addr d e s sound p q k =
      Moves-bind (debit_sender env addr d) (λ _. m) (pos 0 -ℤ d) e s
        (debit_sender-Moves env limit exact addr d s sound p q) λ _ s' _. k s'

  transfer-Moves :
      (tx : Tx) (s : Run)
      → IsPositive tx
      → AllSound s
      → total s +ℤ tx.amount ≤ℤ pos limit
      → Moves s
          (supply_change env TxType.transfer tx.amount tx.total_fee)
          (dispatch env TxType.transfer tx s)
  unfolding dispatch
  transfer-Moves tx s p sound q =
      sender_then
        (credit_receiver env tx.to_address tx.amount >> credit_pool_with_gas env tx.total_fee)
        tx.from_address (tx.amount +ℤ tx.total_fee)
        (tx.amount +ℤ if_some env.pool_wallet_id tx.total_fee) s sound (omega int_laws)
        (omega int_laws)
        λ s' sound' e.
          Moves-bind (credit_receiver env tx.to_address tx.amount)
            (λ _. credit_pool_with_gas env tx.total_fee) tx.amount
            (if_some env.pool_wallet_id tx.total_fee) s'
            (credit_receiver-Moves env limit exact tx.to_address tx.amount s' sound' p.amount_nonneg
              (omega (int_laws, parts_of_eq _ _ e)))
            λ _ s'' _ sound'' e'.
              credit_pool_with_gas-Moves env limit exact tx.total_fee s'' sound'' p.fee_nonneg
                (omega (int_laws, parts_of_eq _ _ e, parts_of_eq _ _ e'))

  -- The two transactions that give a sender's coins and fee to the pool.
  to_pool-Moves :
      (tx : Tx) (s : Run)
      → IsPositive tx
      → AllSound s
      → total s ≤ℤ pos limit
      → Moves s (supply_change env TxType.stake tx.amount tx.total_fee) (
          (debit_sender env tx.from_address (tx.amount +ℤ tx.total_fee)
              >> credit_system env env.pool_wallet_id (tx.amount +ℤ tx.total_fee))
            s)
  to_pool-Moves tx s p sound q =
      sender_then (credit_system env env.pool_wallet_id (tx.amount +ℤ tx.total_fee)) tx.from_address
        (tx.amount +ℤ tx.total_fee) (if_some env.pool_wallet_id (tx.amount +ℤ tx.total_fee)) s sound
        (omega (int_laws, p.amount_nonneg, p.fee_nonneg)) q
        λ s' sound' e.
          credit_system-Moves env limit exact env.pool_wallet_id (tx.amount +ℤ tx.total_fee) s'
            sound' (omega (int_laws, p.amount_nonneg, p.fee_nonneg))
            (omega (int_laws, parts_of_eq _ _ e))

  burn-Moves :
      (tx : Tx) (s : Run)
      → IsPositive tx
      → AllSound s
      → total s ≤ℤ pos limit
      → Moves s
          (supply_change env TxType.burn tx.amount tx.total_fee)
          (dispatch env TxType.burn tx s)
  unfolding dispatch
  burn-Moves tx s p sound q =
      let bounds = if_some_bounds env.burn_wallet_id tx.amount p.amount_nonneg in
      sender_then
        (credit_system env env.burn_wallet_id tx.amount >> credit_pool_with_gas env tx.total_fee)
        tx.from_address (tx.amount +ℤ tx.total_fee)
        (if_some env.burn_wallet_id tx.amount +ℤ if_some env.pool_wallet_id tx.total_fee) s sound
        (omega (int_laws, p.amount_nonneg, p.fee_nonneg)) q
        λ s' sound' e.
          Moves-bind (credit_system env env.burn_wallet_id tx.amount)
            (λ _. credit_pool_with_gas env tx.total_fee) (if_some env.burn_wallet_id tx.amount)
            (if_some env.pool_wallet_id tx.total_fee) s'
            (credit_system-Moves env limit exact env.burn_wallet_id tx.amount s' sound'
              p.amount_nonneg (omega (int_laws, p.fee_nonneg, parts_of_eq _ _ e)))
            λ _ s'' _ sound'' e'.
              credit_pool_with_gas-Moves env limit exact tx.total_fee s'' sound'' p.fee_nonneg
                (omega (int_laws, parts_of_eq _ _ e, parts_of_eq _ _ e'))

  reward-Moves :
      (tx : Tx) (s : Run)
      → IsPositive tx
      → AllSound s
      → total s +ℤ tx.amount ≤ℤ pos limit
      → Moves s
          (supply_change env TxType.reward tx.amount tx.total_fee)
          (dispatch env TxType.reward tx s)
  unfolding dispatch
  reward-Moves tx s p sound q =
      Moves-bind (credit_receiver env tx.to_address tx.amount)
        (λ _. debit_system env env.pool_wallet_id tx.amount) tx.amount
        (pos 0 -ℤ if_some env.pool_wallet_id tx.amount) s
        (credit_receiver-Moves env limit exact tx.to_address tx.amount s sound p.amount_nonneg q)
        λ _ s' _ sound' e.
          debit_system-Moves env limit exact env.pool_wallet_id tx.amount s' sound' p.amount_nonneg
            (omega (int_laws, parts_of_eq _ _ e))

  unstake-Moves :
      (tx : Tx) (s : Run)
      → IsPositive tx
      → AllSound s
      → total s +ℤ tx.amount ≤ℤ pos limit
      → Moves s
          (supply_change env TxType.unstake tx.amount tx.total_fee)
          (dispatch env TxType.unstake tx s)
  unfolding dispatch
  unstake-Moves tx s p sound q =
      let bounds = if_some_bounds env.pool_wallet_id tx.amount p.amount_nonneg in
      Moves-bind (debit_system env env.pool_wallet_id tx.amount)
        (λ _. credit_receiver env tx.to_address tx.amount)
        (pos 0 -ℤ if_some env.pool_wallet_id tx.amount) tx.amount s
        (debit_system-Moves env limit exact env.pool_wallet_id tx.amount s sound p.amount_nonneg
          (omega (int_laws, p.amount_nonneg)))
        λ _ s' _ sound' e.
          credit_receiver-Moves env limit exact tx.to_address tx.amount s' sound' p.amount_nonneg
            (omega (int_laws, parts_of_eq _ _ e))

  unknown-Moves : (hash : Key) (s : Run) → AllSound s → Moves s (pos 0) (unknown_type hash s)
  unknown-Moves hash s sound = Moves-keep s (unknown_type hash s) sound (ledger-unknown_type hash s)

  pub dispatch-Moves :
      (type : TxType) (tx : Tx) (s : Run)
      → IsPositive tx
      → AllSound s
      → total s +ℤ tx.amount ≤ℤ pos limit
      → Moves s (supply_change env type tx.amount tx.total_fee) (dispatch env type tx s)
  unfolding dispatch
  dispatch-Moves TxType.mint tx s p sound q =
      credit_receiver-Moves env limit exact tx.to_address tx.amount s sound p.amount_nonneg q
  dispatch-Moves TxType.reward tx s p sound q = reward-Moves tx s p sound q
  dispatch-Moves TxType.transfer tx s p sound q = transfer-Moves tx s p sound q
  dispatch-Moves TxType.burn tx s p sound q =
      burn-Moves tx s p sound (omega (int_laws, p.amount_nonneg))
  dispatch-Moves TxType.slash tx s p sound q =
      to_pool-Moves tx s p sound (omega (int_laws, p.amount_nonneg))
  dispatch-Moves TxType.stake tx s p sound q =
      to_pool-Moves tx s p sound (omega (int_laws, p.amount_nonneg))
  dispatch-Moves TxType.unstake tx s p sound q = unstake-Moves tx s p sound q
  dispatch-Moves _ tx s p sound q = unknown-Moves tx.tx_hash s sound
