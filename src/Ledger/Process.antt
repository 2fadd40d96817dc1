-- ===== src/Ledger/Process.antt =====
-- A whole block: the wallets of the ledger's system user, the loop over the transactions, the
-- nonces of the senders, the users' totals, the transaction records and the block's own mark.
use bachi_coin.Prelude.{
  ℕ, ◌+◌, ◌-◌, Bool, true, false, Option, none, some, List, [], ◌∷◌, map, length, if◌then◌else◌, ℤ,
  ◌==◌,
}
use bachi_coin.Dict.{Key, Dict, get, put, sum_of}
use bachi_coin.Exec.{
  Result, ok, err, Exec, pure, gets, or_raise, modify, for_each, ◌>>=◌, ◌>>◌, key_error,
  assertion_failed,
}
use bachi_coin.Tx.{Tx}
use bachi_coin.Block.{Block, transactions_of, height_of}
use bachi_coin.User.{User, list_users}
use bachi_coin.Wallet.{
  Wallet, WalletType, Accounts, Rounding, update_nonce, get_wallet_summary,
  get_wallet_id_by_address, list_wallets_by_user, reconcile_user_balance,
}
use bachi_coin.Ledger.{
  TxRecord, Ledger, BalanceChange, Run, Env, set_accounts, set_wallets, accounts_of,
  get_context_for_address, process_txs,
}

-- The text "Ledger System".
abbrev pub ledger_system : Key
ledger_system = 1

abbrev find_user : Dict User → Option Key
find_user [] = none
find_user ((k, u) ∷ d) =
    let rest = find_user d in if u.full_name == ledger_system then some k else rest

is_burn : WalletType → Bool
is_burn WalletType.burn = true
is_burn _ = false

is_pool : WalletType → Bool
is_pool WalletType.pool = true
is_pool _ = false

abbrev first_with : (WalletType → Bool) → Dict Wallet → Option Key
first_with p [] = none
first_with p ((k, w) ∷ d) = let rest = first_with p d in if p w.wallet_type then some k else rest

abbrev system_wallet : (WalletType → Bool) → Accounts → Option Key
system_wallet p a = elim (find_user (list_users a.users)) [
  | none ↦ none
  | some uid ↦ first_with p (list_wallets_by_user uid a.wallets)
]

-- Lines 153 to 167: the burn and the pool wallet of node 0.
unfoldable pub make_env : Rounding → Dict ℕ → Accounts → Env
unfolding is_burn is_pool list_users list_wallets_by_user
make_env r addresses node0 = record {
  rounding = r;
  address_to_node_map = addresses;
  burn_wallet_id = system_wallet is_burn node0;
  pool_wallet_id = system_wallet is_pool node0;
}

-- `get_nonce`
unfoldable pub get_nonce : ℕ → Key → Exec Run ℕ
unfolding accounts_of get_wallet_summary
get_nonce node addr = do
  a ← accounts_of node
  wid ← or_raise (get_wallet_id_by_address addr a.wallets) assertion_failed
  summary ← or_raise (get_wallet_summary wid a.wallets) assertion_failed
  pure summary.nonce

unfoldable pub write_nonce : ℕ → Key → ℕ → Accounts → Exec Run (Unit {0})
write_nonce node wid n a s =
    let (done, w) = update_nonce wid n a.wallets in
    if done then (ok tt, set_wallets node a w s) else (err assertion_failed, s)

-- `increment_nonce`
unfoldable pub increment_nonce : ℕ → Key → ℕ → Exec Run (Unit {0})
unfolding accounts_of get_nonce write_nonce
increment_nonce node addr tx_count = do
  a ← accounts_of node
  wid ← or_raise (get_wallet_id_by_address addr a.wallets) assertion_failed
  canonical ← get_nonce node addr
  write_nonce node wid (canonical + tx_count) a

unfoldable pub advance_sender : Env → Key × ℕ → Exec Run (Unit {0})
unfolding increment_nonce get_context_for_address
advance_sender env (addr, count) = do
  (node, _) ← get_context_for_address env (some addr)
  increment_nonce node addr count

-- The result of `reconcile_user_balance` is not looked at.
unfoldable pub reconcile_user : Env → Key × ℕ → Exec Run (Unit {0})
unfolding accounts_of
reconcile_user env (uid, node) = do
  a ← accounts_of node
  modify (set_accounts node (reconcile_user_balance env.rounding uid a).1)

abbrev pub start_run : Ledger → Run
start_run l = record {
  ledger = l;
  users_to_reconcile = [];
  balance_changes = [];
  errors = [];
  sender_tx_counts = [];
  processed_count = 0;
}

-- `_apply_block_balance_changes`, after the system wallets are found.
unfoldable pub run_block : Env → List Tx → Exec Run (Unit {0})
unfolding process_txs advance_sender reconcile_user
run_block env txs = do
  process_txs env txs
  counts ← gets (λ s. s.sender_tx_counts)
  for_each counts (advance_sender env)
  users ← gets (λ s. s.users_to_reconcile)
  for_each users (reconcile_user env)

pub data Message : Type 0 where
  block_not_found : Message
  already_processed : Key → Message
  unknown_tx_type : Key → Message

pub record UpdateResult : Type 0 where
  pub block_hash : Key
  pub processed_tx_count : ℕ
  pub skipped_tx_count : ℕ
  pub affected_user_ids : List Key
  pub balance_changes : List BalanceChange
  pub errors : List Message

abbrev pub nothing_done : Key → ℕ → Message → UpdateResult
nothing_done hash skipped message = record {
  block_hash = hash;
  processed_tx_count = 0;
  skipped_tx_count = skipped;
  affected_user_ids = [];
  balance_changes = [];
  errors = message ∷ [];
}

abbrev pub done_result : Key → ℕ → Run → UpdateResult
done_result hash total s = record {
  block_hash = hash;
  processed_tx_count = s.processed_count;
  skipped_tx_count = total - s.processed_count;
  affected_user_ids = map (λ e. e.0) s.users_to_reconcile;
  balance_changes = s.balance_changes;
  errors = map unknown_tx_type s.errors;
}

unfoldable pub confirm_tx : Block → Tx → Dict TxRecord → Dict TxRecord
confirm_tx b tx d = elim (get tx.tx_hash d) [
  | none ↦ d
  | some _ ↦
      put tx.tx_hash
        (record { confirmed = true; block_hash = b.block_hash; block_number = height_of b }) d
]

-- `_update_tx_records`: a transaction with no record is passed over.
unfoldable pub update_tx_records : Block → List Tx → Dict TxRecord → Dict TxRecord
unfolding confirm_tx
update_tx_records b [] d = d
update_tx_records b (tx ∷ txs) d = update_tx_records b txs (confirm_tx b tx d)

-- What follows `_apply_block_balance_changes` in `update_block_state`.
-- A block is stored under its own hash, which is the hash it was looked up by.
unfoldable pub finish_block : Block → Run → Ledger
unfolding update_tx_records
finish_block b s = record s.ledger {
  txs = update_tx_records b (transactions_of b) s.ledger.txs;
  blocks = put b.block_hash (record b { state_processed = true }) s.ledger.blocks;
}

unfoldable pub apply_result : Block → Result (Unit {0}) × Run → Result UpdateResult × Ledger
unfolding finish_block
apply_result b (ok _, s) =
    (ok (done_result b.block_hash (length (transactions_of b)) s), finish_block b s)
apply_result b (err e, s) = (err e, s.ledger)

unfoldable pub apply_block : Env → Block → Exec Ledger UpdateResult
unfolding run_block apply_result
apply_block env b l = apply_result b (run_block env (transactions_of b) (start_run l))

unfoldable pub process_found : Rounding → Dict ℕ → Key → Option Block → Exec Ledger UpdateResult
unfolding apply_block make_env
process_found r addresses hash none = pure (nothing_done hash 0 block_not_found)
process_found r addresses hash (some b) =
    if b.state_processed
    then pure (nothing_done hash (length (transactions_of b)) (already_processed hash))
    else do
      node0 ← or_raise (← gets (λ l. get 0 l.nodes)) key_error
      apply_block (make_env r addresses node0) b

unfoldable pub update_block_state : Rounding → Dict ℕ → Key → Exec Ledger UpdateResult
unfolding process_found
update_block_state r addresses hash l = process_found r addresses hash (get hash l.blocks) l

-- `get_ledger_balance`, before the total is turned into a float: the index entries of all nodes.
unfoldable pub get_ledger_balance : Ledger → ℤ
get_ledger_balance l = sum_of (λ a. sum_of (λ w. w.balance) a.wallets.index) l.nodes
