-- ===== src/Tests/Txs.antt =====
-- A transaction in the store of the transaction service.
use bachi_coin.Prelude.{◌≡◌, refl, ◌⊎◌, true, some, [], ◌∷◌, arith, negsuc}
use bachi_coin.Dict.{put}
use bachi_coin.Exec.{ok, err, assertion_failed, validation_failed, no_tx_hash}
use bachi_coin.Tx.{Tx}
use bachi_coin.TxIndex.{
  TxStore, set_amount, set_gas_limit, build_index_entry, change_record, update_transaction,
  save_signed_transaction, get_transaction,
}
use bachi_coin.TxIndex.Indexed.{IsIndexed, AreValid, update_transaction-either}
use bachi_coin.TxIndex.Saved.{IsSavable, save_signed_transaction-either}
use bachi_coin.Tests.Nodes.{tx_formats, payment_to}

abbrev payment : Tx
payment = payment_to 101 21000

abbrev pub no_txs : TxStore
no_txs = record { records = []; index = [] }

pub no_txs-IsIndexed : IsIndexed no_txs
no_txs-IsIndexed = record { same = λ hash. refl }

saved_or_refused :
    let (answer, s') = save_signed_transaction tx_formats payment no_txs in
    (IsSavable tx_formats payment
      × (answer ≡ ok true)
      × (get_transaction 400 s' ≡ some payment)
      × IsIndexed s')
    ⊎ ((¬ IsSavable tx_formats payment)
        × ((answer ≡ err validation_failed) ⊎ (answer ≡ err no_tx_hash))
        × (s' ≡ no_txs))
saved_or_refused = save_signed_transaction-either tx_formats payment no_txs no_txs-IsIndexed

abbrev one_tx : TxStore
one_tx = record { records = (400, payment) ∷ []; index = (400, build_index_entry payment) ∷ [] }

one_tx-IsIndexed : IsIndexed one_tx
one_tx-IsIndexed = record { same = λ hash. ground arith }

update_transaction-either_example :
    let (answer, s') =
      update_transaction tx_formats 400 (set_gas_limit 30000 ∷ set_amount (negsuc 0) ∷ []) one_tx in
    (s'.records
      ≡ put 400
          (change_record (set_gas_limit 30000 ∷ set_amount (negsuc 0) ∷ []) payment)
          one_tx.records)
    × ((AreValid tx_formats (set_gas_limit 30000 ∷ set_amount (negsuc 0) ∷ [])
          × (answer ≡ ok true)
          × IsIndexed s')
        ⊎ ((¬ AreValid tx_formats (set_gas_limit 30000 ∷ set_amount (negsuc 0) ∷ []))
            × (answer ≡ err assertion_failed)
            × (s'.index ≡ one_tx.index)))
update_transaction-either_example =
    update_transaction-either tx_formats 400 (set_gas_limit 30000 ∷ set_amount (negsuc 0) ∷ [])
      payment one_tx one_tx-IsIndexed refl
