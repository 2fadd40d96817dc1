-- ===== src/TxIndex/Indexed.antt =====
-- What the transaction service keeps of its index.
use bachi_coin.Prelude.{
  ◌≡◌, ◌≢◌, All, refl, ap, ◌∙◌, ◌⊎◌, true, false, Option, none, some, List, [], ◌∷◌, arith,
  Option-cases, inl, inr, keep, Bool-cases, ◌==◌, length, if◌then◌else◌,
}
use bachi_coin.Dict.{Key, get, put, get-put, get-pop}
use bachi_coin.Exec.{ok, err, assertion_failed}
use bachi_coin.Tx.{Tx}
use bachi_coin.TxCheck.{TxFormats, TxError, validate_transaction}
use bachi_coin.TxIndex.{
  TxEntry, TxStore, Change, build_index_entry, save_and_index, save_valid, save_checked,
  save_signed_transaction, change_tx, change_entry, is_indexed, change_record, change_fields,
  save_entry, update_index_found, update_index_entry, update_index_if, update_found,
  update_transaction, delete_found, delete_transaction, change_errors,
}

abbrev pub entry_of : Option Tx → Option TxEntry
entry_of none = none
entry_of (some tx) = some (build_index_entry tx)

-- The index has the entry of each stored transaction, and no other.
pub record IsIndexed (s : TxStore) : Type 0 where
  pub same : (hash : Key) → get hash s.index ≡ entry_of (get hash s.records)

save_and_index-IsIndexed : (tx : Tx) (s : TxStore) → IsIndexed s → IsIndexed (save_and_index tx s)
unfolding save_and_index
save_and_index-IsIndexed tx s h = record {
  same = λ hash. ground (
    arith,
    h.same hash,
    get-put tx.tx_hash hash tx s.records,
    get-put tx.tx_hash hash (build_index_entry tx) s.index,
  );
}

save_valid-IsIndexed : (tx : Tx) (s : TxStore) → IsIndexed s → IsIndexed (save_valid tx s).1
unfolding save_valid
save_valid-IsIndexed tx s h = elim (Bool-cases (tx.tx_hash == 0)) [
  | inl e ↦ rw e h
  | inr e ↦ rw e (save_and_index-IsIndexed tx s h)
]

save_checked-IsIndexed :
    (errors : List TxError) (tx : Tx) (s : TxStore)
    → IsIndexed s
    → IsIndexed (save_checked errors tx s).1
unfolding save_checked
save_checked-IsIndexed [] tx s h = save_valid-IsIndexed tx s h
save_checked-IsIndexed (_ ∷ _) tx s h = h

-- Saving a signed transaction keeps the index, also where the transaction is refused.
pub save_signed_transaction-IsIndexed :
    (f : TxFormats) (tx : Tx) (s : TxStore)
    → IsIndexed s
    → IsIndexed (save_signed_transaction f tx s).1
unfolding save_signed_transaction
save_signed_transaction-IsIndexed f tx s h =
    save_checked-IsIndexed (validate_transaction f tx) tx s h

-- Deleting a transaction keeps the index, also where the transaction is missing.
pub delete_transaction-IsIndexed :
    (hash : Key) (s : TxStore) → IsIndexed s → IsIndexed (delete_transaction hash s).1
unfolding delete_transaction delete_found
delete_transaction-IsIndexed hash s h = elim (Option-cases (get hash s.records)) [
  | inl e ↦ rw e h
  | inr (tx, e) ↦ rw e (record {
    same = λ other.
        ground (arith, h.same other, get-pop hash other s.records, get-pop hash other s.index);
  })
]

build_index_entry-change_tx :
    (c : Change) (tx : Tx)
    → is_indexed c ≡ true
    → change_entry c (build_index_entry tx) ≡ build_index_entry (change_tx c tx)
unfolding is_indexed change_entry build_index_entry change_tx
build_index_entry-change_tx c tx h = ground arith

build_index_entry-unindexed :
    (c : Change) (tx : Tx)
    → is_indexed c ≡ false
    → build_index_entry (change_tx c tx) ≡ build_index_entry tx
unfolding is_indexed build_index_entry change_tx
build_index_entry-unindexed c tx h = ground arith

-- The changed fields of the index have no errors.
abbrev pub AreValid : TxFormats → List Change → Type 0
AreValid f cs = All (λ c. change_errors f c ≡ []) (keep is_indexed cs)

length-zero {ℓ} : {A : Type ℓ} (xs : List A) → (length xs == 0) ≡ true → xs ≡ []
length-zero [] h = refl
length-zero (x ∷ xs) h = ground (arith, h)

length-none {ℓ} : {A : Type ℓ} (xs : List A) → (length xs == 0) ≡ false → xs ≢ []
length-none xs h e = let clash : (length xs == 0) ≡ true = rw e refl in cc

-- If all are valid, the changed fields of the entry are those of the entry of the changed
-- transaction; otherwise there is no entry.
change_fields-cases :
    (f : TxFormats) (cs : List Change) (tx : Tx)
    → (AreValid f cs
        × (change_fields f (keep is_indexed cs) (build_index_entry tx)
            ≡ some (build_index_entry (change_record cs tx))))
      ⊎ ((¬ AreValid f cs) × (change_fields f (keep is_indexed cs) (build_index_entry tx) ≡ none))
unfolding change_fields change_record
change_fields-cases f [] tx = inl (tt, refl)
change_fields-cases f (c ∷ cs) tx = elim (Bool-cases (is_indexed c)) [
  | inl e ↦ elim (Bool-cases (length (change_errors f c) == 0)) [
    | inl valid ↦ elim (change_fields-cases f cs (change_tx c tx)) [
      | inl (all, same) ↦
          rw (e, valid, build_index_entry-change_tx c tx e)
            (inl ((length-zero (change_errors f c) valid, all), same))
      | inr (some_not, same) ↦
          rw (e, valid, build_index_entry-change_tx c tx e) (inr (λ h. some_not h.1, same))
    ]
    | inr invalid ↦ rw (e, invalid) (inr (λ h. length-none (change_errors f c) invalid h.0, refl))
  ]
  | inr e ↦ rw (e, ← build_index_entry-unindexed c tx e) (change_fields-cases f cs (change_tx c tx))
]

module _ (f : TxFormats) (hash : Key) (e : TxEntry) (s : TxStore)
    (found : get hash s.index ≡ some e) where
  update_index_if-valid :
      (cs : List Change) (e' : TxEntry)
      → change_fields f cs e ≡ some e'
      → let (answer, s') = update_index_if f hash cs s in
        (answer ≡ ok true)
        × (s'.records ≡ s.records)
        × ((other : Key)
            → get other s'.index ≡ (if hash == other then some e' else get other s.index))
  unfolding update_index_if update_index_entry update_index_found save_entry change_fields
  update_index_if-valid [] e' h = (refl, refl, λ other. ground (arith, found, h))
  update_index_if-valid (c ∷ cs) e' h =
      rw (found, h) (refl, refl, λ other. get-put hash other e' s.index)

  update_index_if-invalid :
      (cs : List Change)
      → change_fields f cs e ≡ none
      → update_index_if f hash cs s ≡ (err assertion_failed, s)
  unfolding update_index_if update_index_entry update_index_found save_entry change_fields
  update_index_if-invalid [] h = ground (arith, h)
  update_index_if-invalid (c ∷ cs) h = rw (found, h) refl

-- An update of a stored transaction writes its record first. If every changed field of the index is
-- valid, it succeeds and keeps the index; otherwise it raises, and the index is as it was while the
-- record is changed.
pub update_transaction-either :
    (f : TxFormats) (hash : Key) (cs : List Change) (tx : Tx) (s : TxStore)
    → IsIndexed s
    → get hash s.records ≡ some tx
    → let (answer, s') = update_transaction f hash cs s in
      (s'.records ≡ put hash (change_record cs tx) s.records)
      × ((AreValid f cs × (answer ≡ ok true) × IsIndexed s')
          ⊎ ((¬ AreValid f cs) × (answer ≡ err assertion_failed) × (s'.index ≡ s.index)))
unfolding update_transaction update_found
update_transaction-either f hash cs tx s h found =
    let s1 : TxStore = record s { records = put hash (change_record cs tx) s.records } in
    let entry : get hash s.index ≡ some (build_index_entry tx) = h.same hash ∙ ap entry_of found in
    let kept = keep is_indexed cs in
    rw found (elim (change_fields-cases f cs tx) [
      | inl (all, valid) ↦
          let (answer, records, index) =
            update_index_if-valid f hash (build_index_entry tx) s1 entry kept
              (build_index_entry (change_record cs tx)) valid in
          (
            records,
            inl (
              all,
              answer,
              record {
                same = λ other. ground (
                  arith,
                  index other,
                  records,
                  h.same other,
                  get-put hash other (change_record cs tx) s.records,
                );
              },
            ),
          )
      | inr (some_not, invalid) ↦
          rw (update_index_if-invalid f hash (build_index_entry tx) s1 entry kept invalid)
            (refl, inr (some_not, refl, refl))
    ])
