-- ===== src/TxIndex/Saved.antt =====
-- Which signed transactions the transaction service saves.
use bachi_coin.Prelude.{
  ◌≡◌, ◌≢◌, refl, ◌⊎◌, inl, inr, true, some, List, [], ◌∷◌, arith, Bool-cases, ◌==◌,
}
use bachi_coin.Dict.{get-put}
use bachi_coin.Exec.{ok, err, validation_failed, no_tx_hash}
use bachi_coin.Tx.{Tx}
use bachi_coin.TxCheck.{TxFormats, validate_transaction}
use bachi_coin.TxCheck.Shape.{IsAcceptable, validate_transaction-IsAcceptable}
use bachi_coin.TxIndex.{
  TxStore, save_and_index, save_valid, save_checked, save_signed_transaction, get_transaction,
}
use bachi_coin.TxIndex.Indexed.{IsIndexed, save_signed_transaction-IsIndexed}

-- What the service asks of a signed transaction.
pub record IsSavable (f : TxFormats) (tx : Tx) : Type 0 where
  pub acceptable : IsAcceptable f tx
  pub hashed : tx.tx_hash ≢ 0

List-cases {ℓ} :
    {A : Type ℓ} (xs : List A) → (xs ≡ []) ⊎ ((x : A) × ((rest : List A) × (xs ≡ x ∷ rest)))
List-cases [] = inl refl
List-cases (x ∷ xs) = inr (x, (xs, refl))

-- A signed transaction that passes the rules for a single transaction and has a hash is saved: it
-- can be read under its hash and the index is kept. Any other is refused, and the store is as it
-- was.
pub save_signed_transaction-either :
    (f : TxFormats) (tx : Tx) (s : TxStore)
    → IsIndexed s
    → let (answer, s') = save_signed_transaction f tx s in
      (IsSavable f tx
        × (answer ≡ ok true)
        × (get_transaction tx.tx_hash s' ≡ some tx)
        × IsIndexed s')
      ⊎ ((¬ IsSavable f tx)
          × ((answer ≡ err validation_failed) ⊎ (answer ≡ err no_tx_hash))
          × (s' ≡ s))
unfolding save_signed_transaction save_checked save_valid save_and_index get_transaction
save_signed_transaction-either f tx s h =
    let kept = save_signed_transaction-IsIndexed f tx s h in
    elim (List-cases (validate_transaction f tx)) [
      | inl valid ↦
          let acceptable = (validate_transaction-IsAcceptable f tx).0 valid in
          elim (Bool-cases (tx.tx_hash == 0)) [
            | inl missing ↦ inr (
              λ savable. ground (arith, savable.hashed, missing),
              inr (rw (valid, missing) refl),
              rw (valid, missing) refl,
            )
            | inr present ↦ inl (
              record { acceptable = acceptable; hashed = ground (arith, present) },
              rw (valid, present) refl,
              rw (valid, present) (ground (arith, get-put tx.tx_hash tx.tx_hash tx s.records)),
              kept,
            )
          ]
      | inr (e, (rest, invalid)) ↦ inr (
        λ savable.
            let none_found = (validate_transaction-IsAcceptable f tx).1 savable.acceptable in
            ground (arith, invalid, none_found),
        inl (rw invalid refl),
        rw invalid refl,
      )
    ]
