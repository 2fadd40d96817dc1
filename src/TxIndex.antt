-- ===== src/TxIndex.antt =====
-- The transaction service (src/BachiCoin/lib_transaction/tx_index_service.py, with the index entry
-- of tx_helper.py and the storage adapter of tx_storage_adapter.py). Storage is reliable and its
-- index is there from the start. Search and statistics are left out; preparation is in Submission.
pub mod Indexed
pub mod Saved
pub mod Rebuilt
use bachi_coin.Prelude.{
  ℕ, Bool, true, false, not, ◌&&◌, Option, none, some, List, [], ◌∷◌, ◌==◌, if◌then◌else◌, keep, ℤ,
  pos, ltb, ltb_ℤ, length, ◌||◌, map,
}
use bachi_coin.Dict.{Key, Dict, get, put, pop}
use bachi_coin.Exec.{Result, ok, err, assertion_failed, validation_failed, no_tx_hash}
use bachi_coin.Tx.{Tx, TxType}
use bachi_coin.TxCheck.{
  TxFormats, TxError, validate_transaction, error_if, same_address, format_errors, below_minimum,
  invalid_address, min_gas_limit,
}

-- The fields of the schema's view "index" that `Tx` has.
pub record TxEntry : Type 0 where
  pub tx_hash : Key
  pub tx_type : TxType
  pub from_address : Option Key
  pub to_address : Option Key
  pub amount : ℤ
  pub total_fee : ℤ
  pub nonce : Option ℕ
  pub max_fee_per_gas : ℤ
  pub max_priority_fee_per_gas : ℤ

pub record TxStore : Type 0 where
  pub records : Dict Tx
  pub index : Dict TxEntry

-- `build_index_entry`
unfoldable pub build_index_entry : Tx → TxEntry
build_index_entry tx = record {
  tx_hash = tx.tx_hash;
  tx_type = tx.tx_type;
  from_address = tx.from_address;
  to_address = tx.to_address;
  amount = tx.amount;
  total_fee = tx.total_fee;
  nonce = tx.nonce;
  max_fee_per_gas = tx.max_fee_per_gas;
  max_priority_fee_per_gas = tx.max_priority_fee_per_gas;
}

-- `save_tx`, then `create_index_entry`
unfoldable pub save_and_index : Tx → TxStore → TxStore
save_and_index tx s = record s {
  records = put tx.tx_hash tx s.records;
  index = put tx.tx_hash (build_index_entry tx) s.index;
}

unfoldable pub save_valid : Tx → TxStore → Result Bool × TxStore
save_valid tx s = if tx.tx_hash == 0 then (err no_tx_hash, s) else (ok true, save_and_index tx s)

unfoldable pub save_checked : List TxError → Tx → TxStore → Result Bool × TxStore
save_checked [] tx s = save_valid tx s
save_checked (_ ∷ _) tx s = (err validation_failed, s)

-- `save_signed_transaction`
unfoldable pub save_signed_transaction : TxFormats → Tx → TxStore → Result Bool × TxStore
save_signed_transaction f tx s = save_checked (validate_transaction f tx) tx s

-- An entry of `update_data`, for some fields of a transaction. The gas limit is not in the index.
pub data Change : Type 0 where
  set_amount set_max_fee_per_gas set_max_priority_fee_per_gas : ℤ → Change
  set_from_address set_to_address : Option Key → Change
  set_gas_limit : ℕ → Change

unfoldable pub change_tx : Change → Tx → Tx
change_tx (set_amount v) tx = record tx { amount = v }
change_tx (set_max_fee_per_gas v) tx = record tx { max_fee_per_gas = v }
change_tx (set_max_priority_fee_per_gas v) tx = record tx { max_priority_fee_per_gas = v }
change_tx (set_from_address v) tx = record tx { from_address = v }
change_tx (set_to_address v) tx = record tx { to_address = v }
change_tx (set_gas_limit v) tx = record tx { gas_limit = v }

unfoldable pub change_entry : Change → TxEntry → TxEntry
change_entry (set_amount v) e = record e { amount = v }
change_entry (set_max_fee_per_gas v) e = record e { max_fee_per_gas = v }
change_entry (set_max_priority_fee_per_gas v) e = record e { max_priority_fee_per_gas = v }
change_entry (set_from_address v) e = record e { from_address = v }
change_entry (set_to_address v) e = record e { to_address = v }
change_entry (set_gas_limit v) e = e

-- `k in index_fields`
unfoldable pub is_indexed : Change → Bool
is_indexed (set_gas_limit _) = false
is_indexed _ = true

-- `validate_field`, at the fields of a change
unfoldable pub change_errors : TxFormats → Change → List TxError
change_errors f (set_amount v) = error_if (ltb_ℤ v (pos 0)) below_minimum
change_errors f (set_max_fee_per_gas v) = error_if (ltb_ℤ v (pos 0)) below_minimum
change_errors f (set_max_priority_fee_per_gas v) = error_if (ltb_ℤ v (pos 0)) below_minimum
change_errors f (set_from_address v) = format_errors f.is_valid_address v invalid_address
change_errors f (set_to_address v) = format_errors f.is_valid_address v invalid_address
change_errors f (set_gas_limit v) = error_if (ltb v min_gas_limit) below_minimum

-- `tx_data.update(update_data)`
unfoldable pub change_record : List Change → Tx → Tx
change_record [] tx = tx
change_record (c ∷ cs) tx = change_record cs (change_tx c tx)

-- The loop of `update_index_entry` on the entry; a field that is not valid fails its assert.
unfoldable pub change_fields : TxFormats → List Change → TxEntry → Option TxEntry
change_fields f [] e = some e
change_fields f (c ∷ cs) e =
    let rest = change_fields f cs (change_entry c e) in
    if length (change_errors f c) == 0 then rest else none

unfoldable pub save_entry : Key → Option TxEntry → TxStore → Result Bool × TxStore
save_entry hash none s = (err assertion_failed, s)
save_entry hash (some e) s = (ok true, record s { index = put hash e s.index })

unfoldable pub update_index_found :
    TxFormats → Key → List Change → Option TxEntry → TxStore → Result Bool × TxStore
update_index_found f hash cs none s = (err assertion_failed, s)
update_index_found f hash cs (some e) s = save_entry hash (change_fields f cs e) s

-- `update_index_entry`
unfoldable pub update_index_entry : TxFormats → Key → List Change → TxStore → Result Bool × TxStore
update_index_entry f hash cs s = update_index_found f hash cs (get hash s.index) s

-- The index is written only where some changed field is in it.
unfoldable pub update_index_if : TxFormats → Key → List Change → TxStore → Result Bool × TxStore
update_index_if f hash [] s = (ok true, s)
update_index_if f hash (c ∷ cs) s = update_index_entry f hash (c ∷ cs) s

unfoldable pub update_found :
    TxFormats → Key → List Change → Option Tx → TxStore → Result Bool × TxStore
update_found f hash cs none s = (ok false, s)
update_found f hash cs (some tx) s =
    update_index_if f hash (keep is_indexed cs)
      (record s { records = put hash (change_record cs tx) s.records })

-- `update_transaction`
unfoldable pub update_transaction : TxFormats → Key → List Change → TxStore → Result Bool × TxStore
update_transaction f hash cs s = update_found f hash cs (get hash s.records) s

unfoldable pub delete_found : Key → Option Tx → TxStore → Bool × TxStore
delete_found hash none s = (false, s)
delete_found hash (some _) s =
    (true, record s { records = pop hash s.records; index = pop hash s.index })

-- `delete_transaction`
unfoldable pub delete_transaction : Key → TxStore → Bool × TxStore
delete_transaction hash s = delete_found hash (get hash s.records) s

-- `get_transaction`
unfoldable pub get_transaction : Key → TxStore → Option Tx
get_transaction hash s = get hash s.records

-- A filter is passed where it is not given or empty.
unfoldable pub filter_passes : Option Key → Option Key → Bool
filter_passes none value = true
filter_passes (some wanted) value = (wanted == 0) || same_address value (some wanted)

-- `list_transactions` with filters for the addresses
unfoldable pub list_transactions : Option Key → Option Key → TxStore → Dict TxEntry
list_transactions from to s =
    keep (λ i. filter_passes from i.1.from_address && filter_passes to i.1.to_address) s.index

unfoldable pub add_entry : Key → Option Tx → Dict TxEntry → Dict TxEntry
add_entry hash none d = d
add_entry hash (some tx) d = if tx.tx_hash == 0 then d else put hash (build_index_entry tx) d

unfoldable pub rebuild_txs : List Key → Dict Tx → Dict TxEntry → Dict TxEntry
rebuild_txs [] records d = d
rebuild_txs (hash ∷ hashes) records d =
    rebuild_txs hashes records (add_entry hash (get hash records) d)

-- `rebuild_index_from_records`, without its counts
unfoldable pub rebuild_index_from_records : TxStore → TxStore
rebuild_index_from_records s = record s {
  index = rebuild_txs (map (λ i. i.0) s.records) s.records [];
}
