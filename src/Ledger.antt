-- ===== src/Ledger.antt =====
-- Applying blocks to balances (src/BachiCoin/lib_postprocess/postprocess_state.py), and the nonce
-- update that follows (src/BachiCoin/lib_nonce/nonce.py). Decimals are integers in units of the eighth
-- place, so `quantize` changes nothing; the precision of 28 digits is never reached.
pub mod Process
pub mod Totals
pub mod Moves
pub mod Handlers
pub mod Supply
pub mod Settled
pub mod Frame
pub mod Conserve
pub mod Blocks
pub mod Unmapped
use bachi_coin.Prelude.{
  ℕ, ◌+◌, ◌-◌, Bool, true, false, ◌&&◌, Option, none, some, List, [], ◌∷◌, ◌++◌, map, length, keep,
  if◌then◌else◌, ℤ, pos, ◌+ℤ◌, ◌-ℤ◌, ltb_ℤ, ◌==◌,
}
use bachi_coin.Dict.{Key, Dict, get, put, contains, sum_of}
use bachi_coin.Exec.{
  Error, Result, ok, err, Exec, pure, raise, gets, or_raise, modify, ensure, for_each, ◌>>=◌, ◌>>◌,
}
use bachi_coin.Exec.{
  insufficient_balance, wallet_not_found, update_failed, address_unmapped, node_not_found,
  wallet_unknown, key_error, assertion_failed,
}
use bachi_coin.Tx.{Tx, TxType}
use bachi_coin.Block.{Block, transactions_of, height_of}
use bachi_coin.User.{User, UserStore}
use bachi_coin.Wallet.{
  Wallet, WalletType, WalletStore, Accounts, Rounding, update_balance, update_nonce,
  get_wallet_id_by_address,
}

-- What the service of the first node knows of a transaction.
pub record TxRecord : Type 0 where
  pub confirmed : Bool
  pub block_hash : Key
  pub block_number : ℕ

-- `nodes` are the wallet and user services of all node contexts, by node; `txs` and `blocks` are
-- the transaction and block records of the first context.
pub record Ledger : Type 0 where
  pub nodes : Dict Accounts
  pub txs : Dict TxRecord
  pub blocks : Dict Block

pub record BalanceChange : Type 0 where
  pub wallet_id : Key
  pub wallet_name : Key
  pub change : ℤ
  pub new_balance : ℤ

-- The local variables of `_apply_block_balance_changes`, beside the ledger that it writes.
pub record Run : Type 0 where
  pub ledger : Ledger
  -- user to home node
  pub users_to_reconcile : Dict ℕ
  pub balance_changes : List BalanceChange
  -- the hashes that the messages name
  pub errors : List Key
  pub sender_tx_counts : Dict ℕ
  pub processed_count : ℕ

-- What is fixed while a block runs.
pub record Env : Type 0 where
  pub rounding : Rounding
  pub address_to_node_map : Dict ℕ
  pub burn_wallet_id : Option Key
  pub pool_wallet_id : Option Key

abbrev pub set_accounts : ℕ → Accounts → Run → Run
set_accounts node a s = record s { ledger = record s.ledger { nodes = put node a s.ledger.nodes } }

abbrev pub set_wallets : ℕ → Accounts → WalletStore → Run → Run
set_wallets node a w = set_accounts node (record a { wallets = w })

unfoldable pub accounts_of : ℕ → Exec Run Accounts
accounts_of node s = or_raise (get node s.ledger.nodes) node_not_found s

-- Writes a balance; the exception is that of the caller when the update fails.
unfoldable pub write_balance : Rounding → ℕ → Key → Accounts → ℤ → Exec Run ℤ
write_balance r node wid a new s =
    let (done, w) = update_balance r wid new a.wallets in
    if done then (ok new, set_wallets node a w s) else (err update_failed, s)

unfoldable pub apply_debit : Rounding → ℕ → Key → ℤ → Exec Run ℤ
unfolding accounts_of write_balance
apply_debit r node wid debit_amount = do
  a ← accounts_of node
  wallet ← or_raise (get wid a.wallets.records) wallet_not_found
  let new = wallet.balance -ℤ debit_amount
  if ltb_ℤ new (pos 0) then raise insufficient_balance else write_balance r node wid a new

unfoldable pub apply_credit : Rounding → ℕ → Key → ℤ → Exec Run ℤ
unfolding accounts_of write_balance
apply_credit r node wid credit_amount = do
  a ← accounts_of node
  wallet ← or_raise (get wid a.wallets.records) wallet_not_found
  write_balance r node wid a (wallet.balance +ℤ credit_amount)

-- `users_to_reconcile[...] = ctx` and `balance_changes.append(...)`, which follow each write.
unfoldable pub note_change : ℕ → Key → ℤ → ℤ → Exec Run (Unit {0})
unfolding accounts_of
note_change node wid change new = do
  a ← accounts_of node
  wallet ← or_raise (get wid a.wallets.records) key_error
  modify (λ s. record s {
    users_to_reconcile = put wallet.user_id node s.users_to_reconcile;
    balance_changes =
        s.balance_changes
        ++ record { wallet_id = wid; wallet_name = wallet.name; change = change; new_balance = new }
          ∷ [];
  })

abbrev pub map_get : Option Key → Dict ℕ → Option ℕ
map_get none m = none
map_get (some addr) m = get addr m

abbrev pub find_wallet : Option Key → Accounts → Option Key
find_wallet none a = none
find_wallet (some addr) a = get_wallet_id_by_address addr a.wallets

-- `_get_context_for_address`: the home node of an address, and its wallet there.
unfoldable pub get_context_for_address : Env → Option Key → Exec Run (ℕ × Key)
unfolding accounts_of
get_context_for_address env addr = do
  node ← or_raise (map_get addr env.address_to_node_map) address_unmapped
  a ← accounts_of node
  wid ← or_raise (find_wallet addr a) wallet_unknown
  pure (node, wid)

abbrev count_or_zero : Option ℕ → ℕ
count_or_zero none = 0
count_or_zero (some n) = n

-- `sender_tx_counts[from_addr] = sender_tx_counts.get(from_addr, 0) + 1`
unfoldable pub count_sender : Option Key → Exec Run (Unit {0})
count_sender none s = (ok tt, s)
count_sender (some addr) s = (
  ok tt,
  record s {
    sender_tx_counts =
        put addr (count_or_zero (get addr s.sender_tx_counts) + 1) s.sender_tx_counts;
  },
)

-- Credit and note, debit and note: the two blocks that the branches repeat.
unfoldable pub credit_and_note : Rounding → ℕ → Key → ℤ → Exec Run (Unit {0})
unfolding apply_credit note_change
credit_and_note r node wid amount = do
  new ← apply_credit r node wid amount
  note_change node wid amount new

unfoldable pub debit_and_note : Rounding → ℕ → Key → ℤ → Exec Run (Unit {0})
unfolding apply_debit note_change
debit_and_note r node wid amount = do
  new ← apply_debit r node wid amount
  note_change node wid (pos 0 -ℤ amount) new

-- The debit of a sender, which also counts the transaction for the nonce.
unfoldable pub debit_sender : Env → Option Key → ℤ → Exec Run (Unit {0})
unfolding get_context_for_address apply_debit note_change count_sender
debit_sender env from_addr debit_amt = do
  (node, wid) ← get_context_for_address env from_addr
  new ← apply_debit env.rounding node wid debit_amt
  count_sender from_addr
  note_change node wid (pos 0 -ℤ debit_amt) new

unfoldable pub credit_receiver : Env → Option Key → ℤ → Exec Run (Unit {0})
unfolding get_context_for_address credit_and_note
credit_receiver env to_addr amount = do
  (node, wid) ← get_context_for_address env to_addr
  credit_and_note env.rounding node wid amount

-- `if pool_wallet_id:` and `if burn_wallet_id:`, on node 0.
unfoldable pub credit_system : Env → Option Key → ℤ → Exec Run (Unit {0})
unfolding credit_and_note
credit_system env none amount = pure tt
credit_system env (some wid) amount = credit_and_note env.rounding 0 wid amount

unfoldable pub debit_system : Env → Option Key → ℤ → Exec Run (Unit {0})
unfolding debit_and_note
debit_system env none amount = pure tt
debit_system env (some wid) amount = debit_and_note env.rounding 0 wid amount

-- `_credit_pool_with_gas`
unfoldable pub credit_pool_with_gas : Env → ℤ → Exec Run (Unit {0})
unfolding credit_system
credit_pool_with_gas env fee =
    if ltb_ℤ (pos 0) fee then credit_system env env.pool_wallet_id fee else pure tt

unfoldable pub unknown_type : Key → Exec Run (Unit {0})
unknown_type hash =
    modify
      (λ s. record s { processed_count = s.processed_count - 1; errors = s.errors ++ hash ∷ [] })

-- The branches on `tx_type`. `POOL` and the contract types have no branch of their own.
unfoldable pub dispatch : Env → TxType → Tx → Exec Run (Unit {0})
unfolding debit_sender credit_receiver credit_system debit_system credit_pool_with_gas unknown_type
dispatch env TxType.mint tx = credit_receiver env tx.to_address tx.amount
dispatch env TxType.reward tx = do
  credit_receiver env tx.to_address tx.amount
  debit_system env env.pool_wallet_id tx.amount
dispatch env TxType.transfer tx = do
  debit_sender env tx.from_address (tx.amount +ℤ tx.total_fee)
  credit_receiver env tx.to_address tx.amount
  credit_pool_with_gas env tx.total_fee
dispatch env TxType.burn tx = do
  debit_sender env tx.from_address (tx.amount +ℤ tx.total_fee)
  credit_system env env.burn_wallet_id tx.amount
  credit_pool_with_gas env tx.total_fee
dispatch env TxType.slash tx = do
  debit_sender env tx.from_address (tx.amount +ℤ tx.total_fee)
  credit_system env env.pool_wallet_id (tx.amount +ℤ tx.total_fee)
dispatch env TxType.stake tx = do
  debit_sender env tx.from_address (tx.amount +ℤ tx.total_fee)
  credit_system env env.pool_wallet_id (tx.amount +ℤ tx.total_fee)
dispatch env TxType.unstake tx = do
  debit_system env env.pool_wallet_id tx.amount
  credit_receiver env tx.to_address tx.amount
dispatch env _ tx = unknown_type tx.tx_hash

abbrev pub is_confirmed : Key → Run → Bool
is_confirmed hash s = elim (get hash s.ledger.txs) [ none ↦ false | some r ↦ r.confirmed ]

-- The body of the loop over the transactions. The `ValueError` that wraps an error of a branch
-- carries it as its cause, so the error is kept here.
unfoldable pub process_tx : Env → Tx → Exec Run (Unit {0})
unfolding dispatch
process_tx env tx s =
    if is_confirmed tx.tx_hash s
    then (ok tt, s)
    else dispatch env tx.tx_type tx (record s { processed_count = s.processed_count + 1 })

unfoldable pub process_txs : Env → List Tx → Exec Run (Unit {0})
unfolding process_tx
process_txs env txs = for_each txs (process_tx env)
