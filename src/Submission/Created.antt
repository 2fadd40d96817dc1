-- ===== src/Submission/Created.antt =====
-- What the making of a transaction leaves in the transaction service.
use bachi_coin.Prelude.{◌≡◌, refl, ap, ◌⊎◌, inl, inr, ℕ, Option, some}
use bachi_coin.Dict.{Key, Dict}
use bachi_coin.Exec.{Error, Result, ok, err, validation_failed, no_tx_hash}
use bachi_coin.Tx.{Tx}
use bachi_coin.TxCheck.{TxFormats}
use bachi_coin.TxIndex.{TxStore, get_transaction}
use bachi_coin.TxIndex.Indexed.{IsIndexed}
use bachi_coin.TxIndex.Saved.{IsSavable, save_signed_transaction-either}
use bachi_coin.Signer.{Crypto}
use bachi_coin.Submission.{
  Book, Template, and_then, prepare, sign_if_required, save_final, create_signed_tx,
}

-- A transaction was made, checked and saved.
pub record IsCreated (f : TxFormats) (tx : Tx) (s : TxStore) : Type 0 where
  pub savable : IsSavable f tx
  pub stored : get_transaction tx.tx_hash s ≡ some tx
  pub indexed : IsIndexed s

save_final-either :
    (f : TxFormats) (r : Result Tx) (s : TxStore)
    → IsIndexed s
    → ((tx : Tx) × ((r ≡ ok tx)
          × ((save_final f r s).0 ≡ ok tx)
          × IsCreated f tx (save_final f r s).1))
      ⊎ ((e : Error) × (save_final f r s ≡ (err e, s)))
unfolding save_final
save_final-either f (err e) s h = inr (e, refl)
save_final-either f (ok tx) s h = elim (save_signed_transaction-either f tx s h) [
  | inl (savable, answer, stored, indexed) ↦ inl (
    tx,
    (
      refl,
      ap (λ r. and_then r (λ _. ok tx)) answer,
      record { savable = savable; stored = stored; indexed = indexed },
    ),
  )
  | inr (_, inl answer, same) ↦ inr (validation_failed, rw (answer, same) refl)
  | inr (_, inr answer, same) ↦ inr (no_tx_hash, rw (answer, same) refl)
]

-- On an indexed store, either a transaction is made: it passes the rules for a single transaction,
-- has a hash, can be read under it, and the index is kept; or the call raises and the store is as
-- it was.
pub create_signed_tx-either :
    (c : Crypto) (f : TxFormats) (book : Book) (keys : Option (Dict Key)) (t : Template)
    (nonce : Option ℕ) (s : TxStore)
    → IsIndexed s
    → let (answer, s') = create_signed_tx c f book keys t nonce s in
      ((tx : Tx) × ((answer ≡ ok tx) × IsCreated f tx s'))
      ⊎ ((e : Error) × ((answer ≡ err e) × (s' ≡ s)))
unfolding create_signed_tx
create_signed_tx-either c f book keys t nonce s h =
    elim (save_final-either f (and_then (prepare book t nonce) (sign_if_required c keys)) s h) [
      | inl (tx, (_, answer, created)) ↦ inl (tx, (answer, created))
      | inr (e, same) ↦ inr (e, (ap (λ y. y.0) same, ap (λ y. y.1) same))
    ]
