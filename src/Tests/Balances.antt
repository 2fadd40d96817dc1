-- ===== src/Tests/Balances.antt =====
-- A ledger of one node with two users, a pool wallet of the ledger's system user, and a block with
-- a transfer.
use bachi_coin.Prelude.{
  ℕ, ◌≡◌, refl, true, false, Option, none, some, List, [], ◌∷◌, arith, pos, ◌+ℤ◌, ◌-ℤ◌, int_laws,
  ◌&&◌, ◌≤ℤ◌, if◌then◌else◌,
}
use bachi_coin.Dict.{Key, Dict, get, contains}
use bachi_coin.Exec.{ok, err, address_unmapped}
use bachi_coin.Tx.{Tx, TxType}
use bachi_coin.Block.{Block, BlockStatus, transactions_of}
use bachi_coin.User.{User, update_user_balance}
use bachi_coin.Wallet.{
  Wallet, WalletType, Accounts, Rounding, IsExact, create_wallet_with_index,
  delete_wallet_with_index, get_wallet_id_by_address, update_balance, update_nonce,
  reconcile_user_balance, list_wallets_by_user,
}
use bachi_coin.Wallet.Sync.{
  IsSynced, create_wallet_with_index-IsSynced, delete_wallet_with_index-IsSynced,
}
use bachi_coin.Wallet.Limit.{WithinLimit, create_wallet_with_index-WithinLimit}
use bachi_coin.Ledger.{Ledger, TxRecord, Env, dispatch, map_get}
use bachi_coin.Ledger.Process.{
  update_block_state, make_env, get_ledger_balance, nothing_done, already_processed,
  update_tx_records, start_run, done_result,
}
use bachi_coin.Ledger.Totals.{IsSound, total}
use bachi_coin.Ledger.Conserve.{block_supply, sum_amounts}
use bachi_coin.Ledger.Blocks.{
  Supplies, update_block_state-Supplies, update_block_state-repeat, get-update_tx_records,
  confirmed_record, is_listed,
}
use bachi_coin.Ledger.Unmapped.{HasWallet, transfer-unmapped_receiver}

abbrev pub exact_floats : Rounding
exact_floats = record { store = λ x. x; add = λ a b. a +ℤ b }

exact_floats-IsExact : IsExact exact_floats 100000
exact_floats-IsExact = record { store_exact = λ n h. refl; add_exact = λ m n h. omega int_laws }

abbrev wallet_of : Key → Key → WalletType → ℕ → Wallet
wallet_of uid addr type balance = record {
  user_id = uid;
  name = 50;
  wallet_type = type;
  status = 51;
  balance = pos balance;
  nonce = 0;
  addresses = addr ∷ [];
}

abbrev wallets0 : Dict Wallet
wallets0 =
    (10, wallet_of 20 100 WalletType.default 1000)
    ∷ (11, wallet_of 21 101 WalletType.default 500)
    ∷ (12, wallet_of 22 102 WalletType.pool 0)
    ∷ []

abbrev user_of : Key → Key → User
user_of name wid = record { full_name = name; wallet_ids = wid ∷ []; total_balance = pos 0 }

abbrev users0 : Dict User
users0 = (20, user_of 60 10) ∷ (21, user_of 61 11) ∷ (22, user_of 1 12) ∷ []

abbrev accounts0 : Accounts
accounts0 = record {
  wallets = record { records = wallets0; index = wallets0 };
  users = record { records = users0; index = users0 };
}

abbrev pub addresses0 : Dict ℕ
addresses0 = (100, 0) ∷ (101, 0) ∷ (102, 0) ∷ []

abbrev tx_of : Key → TxType → Option Key → Option Key → ℕ → ℕ → Tx
tx_of hash type from to amount fee = record {
  tx_hash = hash;
  tx_type = type;
  from_address = from;
  to_address = to;
  nonce = some 0;
  amount = pos amount;
  total_fee = pos fee;
  max_fee_per_gas = pos 40000000000;
  max_priority_fee_per_gas = pos 2000000000;
  gas_limit = 21000;
  gas_used = none;
  signature = some 3;
}

abbrev pub block_of : Key → List Tx → Block
block_of hash txs = record {
  block_hash = hash;
  parent_hash = none;
  height = 1;
  slot = 1;
  epoch = 0;
  header = none;
  body = some (record { transactions = txs; attestations = [] });
  status = BlockStatus.proposed;
  state_processed = false;
  is_justified = false;
  is_finalized = false;
}

abbrev payment : Tx
payment = tx_of 300 TxType.transfer (some 100) (some 101) 200 5

abbrev block0 : Block
block0 = block_of 500 (payment ∷ [])

abbrev new_record : TxRecord
new_record = record { confirmed = false; block_hash = 0; block_number = 0 }

abbrev pub ledger0 : Ledger
ledger0 = record {
  nodes = (0, accounts0) ∷ [];
  txs = (300, new_record) ∷ [];
  blocks = (500, block0) ∷ [];
}

accounts0-IsSound : IsSound accounts0
accounts0-IsSound = record {
  sync = record { same = λ k. refl };
  nonneg = (omega arith, (omega arith, (omega arith, tt)));
}

-- The transfer takes 205 from the sender, gives 200 to the receiver, and the fee to the pool.
run_total : get_ledger_balance (update_block_state exact_floats addresses0 500 ledger0).1 ≡ pos 1500
unfolding get_ledger_balance update_block_state get_wallet_id_by_address update_balance update_nonce
    reconcile_user_balance update_user_balance ◌-ℤ◌ ◌+ℤ◌
run_total = refl

room0 : get_ledger_balance ledger0 +ℤ sum_amounts (transactions_of block0) ≤ℤ pos 100000
unfolding get_ledger_balance ◌+ℤ◌
room0 = omega arith

update_block_state-Supplies_example :
    Supplies
      (block_supply (make_env exact_floats addresses0 accounts0) ledger0.txs (payment ∷ []))
      ledger0
      (update_block_state exact_floats addresses0 500 ledger0)
update_block_state-Supplies_example =
    update_block_state-Supplies exact_floats 100000 exact_floats-IsExact addresses0 500 ledger0
      {b = block0} {a = accounts0} refl refl refl
      (record { amount_nonneg = omega arith; fee_nonneg = omega arith }, tt) (accounts0-IsSound, tt)
      room0

-- A block with no transactions, processed twice.
abbrev empty_block : Block
empty_block = block_of 501 []

abbrev ledger1 : Ledger
ledger1 = record ledger0 { blocks = (501, empty_block) ∷ [] }

abbrev ledger1_done : Ledger
ledger1_done = record ledger0 { blocks = (501, record empty_block { state_processed = true }) ∷ [] }

first_run :
    update_block_state exact_floats addresses0 501 ledger1
    ≡ (ok (done_result 501 0 (start_run ledger1)), ledger1_done)
unfolding update_block_state
first_run = refl

update_block_state-repeat_example :
    update_block_state exact_floats addresses0 501 ledger1_done
    ≡ (ok (nothing_done 501 0 (already_processed 501)), ledger1_done)
update_block_state-repeat_example =
    update_block_state-repeat exact_floats addresses0 ledger1 ledger1_done empty_block
      (done_result 501 0 (start_run ledger1)) refl first_run

get-update_tx_records_example : get 300 (update_tx_records block0 (payment ∷ []) ledger0.txs) ≡ (
    if is_listed 300 (payment ∷ []) && contains 300 ledger0.txs
    then some (confirmed_record block0)
    else get 300 ledger0.txs)
get-update_tx_records_example = get-update_tx_records block0 (payment ∷ []) 300 ledger0.txs

-- A transfer to an address that no node has.
abbrev lost_payment : Tx
lost_payment = tx_of 301 TxType.transfer (some 100) (some 999) 200 5

abbrev env0 : Env
env0 = make_env exact_floats addresses0 accounts0

sender_has :
    HasWallet env0
      (some 100)
      (start_run ledger0)
      0
      accounts0
      10
      (wallet_of 20 100 WalletType.default 1000)
unfolding make_env get_wallet_id_by_address
sender_has = record { home = refl; at_node = refl; known = refl; at_wallet = refl }

within : total (start_run ledger0) ≤ℤ pos 100000
unfolding total get_ledger_balance ◌+ℤ◌
within = omega arith

unmapped : map_get (some 999) env0.address_to_node_map ≡ none
unfolding make_env
unmapped = refl

transfer-unmapped_receiver_example :
    let (answer, s') = dispatch env0 TxType.transfer lost_payment (start_run ledger0) in
    (answer ≡ err address_unmapped) × (total s' ≡ total (start_run ledger0) -ℤ (pos 200 +ℤ pos 5))
unfolding make_env
transfer-unmapped_receiver_example =
    transfer-unmapped_receiver env0 100000 lost_payment (start_run ledger0) 0 accounts0 10
      (wallet_of 20 100 WalletType.default 1000) exact_floats-IsExact (accounts0-IsSound, tt)
      sender_has (omega int_laws) (omega int_laws) within unmapped

abbrev new_wallet : Wallet
new_wallet = wallet_of 20 103 WalletType.charity 0

after_creation :
    IsSynced (create_wallet_with_index (λ ks. ks) 20 13 new_wallet false accounts0).1.wallets
after_creation =
    create_wallet_with_index-IsSynced (λ ks. ks) 20 13 new_wallet false accounts0
      (record { same = λ k. refl })

deleted :
    IsSynced (delete_wallet_with_index 10 accounts0).1.wallets
    × (get 10 (delete_wallet_with_index 10 accounts0).1.wallets.records ≡ none)
deleted = delete_wallet_with_index-IsSynced 10 accounts0 (record { same = λ k. refl })

accounts0-WithinLimit : WithinLimit accounts0
unfolding list_wallets_by_user
accounts0-WithinLimit = record { at_user = λ uid. ground arith }

within_limit : WithinLimit (create_wallet_with_index (λ ks. ks) 20 13 new_wallet false accounts0).1
within_limit =
    create_wallet_with_index-WithinLimit (λ ks. ks) 20 13 new_wallet false accounts0 refl
      (record { same = λ k. refl }) accounts0-WithinLimit
