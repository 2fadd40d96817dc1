-- ===== src/TxIndex/Rebuilt.antt =====
-- The index that `rebuild_index_from_records` makes.
use bachi_coin.Prelude.{
  ◌≡◌, ◌≢◌, refl, inl, inr, Bool, false, Option, none, some, List, [], ◌∷◌, arith, Bool-cases,
  Option-cases, ◌==◌, if◌then◌else◌, any_of, map,
}
use bachi_coin.Dict.{Key, Dict, get, get-put}
use bachi_coin.Tx.{Tx}
use bachi_coin.TxIndex.{
  TxEntry, TxStore, build_index_entry, add_entry, rebuild_txs, rebuild_index_from_records,
}
use bachi_coin.TxIndex.Indexed.{IsIndexed}

-- Every stored transaction has a hash.
pub record IsHashed (records : Dict Tx) : Type 0 where
  pub hashed : (key : Key) (tx : Tx) → get key records ≡ some tx → tx.tx_hash ≢ 0

-- The entry of a stored transaction, or else the old one.
abbrev entry_or : Option Tx → Option TxEntry → Option TxEntry
entry_or none old = old
entry_or (some tx) old = some (build_index_entry tx)

abbrev listed : Key → List Key → Bool
listed key keys = any_of (λ k. k == key) keys

module _ (records : Dict Tx) (h : IsHashed records) where
  get-add_entry :
      (key other : Key) (d : Dict TxEntry)
      → get other (add_entry key (get key records) d)
        ≡ (if key == other then entry_or (get other records) (get other d) else get other d)
  unfolding add_entry
  get-add_entry key other d = elim (Option-cases (get key records)) [
    | inl e ↦ elim (Bool-cases (key == other)) [
      | inl same ↦ ground (arith, e, same)
      | inr differ ↦ ground (arith, e, differ)
    ]
    | inr (tx, e) ↦ ground (arith, e, h.hashed key tx e, get-put key other (build_index_entry tx) d)
  ]

  get-rebuild_txs :
      (keys : List Key) (other : Key) (d : Dict TxEntry)
      → get other (rebuild_txs keys records d)
        ≡ (if listed other keys then entry_or (get other records) (get other d) else get other d)
  unfolding rebuild_txs
  get-rebuild_txs [] other d = refl
  get-rebuild_txs (k ∷ ks) other d = elim (Option-cases (get other records)) [
    | inl e ↦ ground (
      arith,
      e,
      get-rebuild_txs ks other (add_entry k (get k records) d),
      get-add_entry k other d,
    )
    | inr (tx, e) ↦ ground (
      arith,
      e,
      get-rebuild_txs ks other (add_entry k (get k records) d),
      get-add_entry k other d,
    )
  ]

get-unlisted : (key : Key) (d : Dict Tx) → listed key (map (λ i. i.0) d) ≡ false → get key d ≡ none
get-unlisted key [] h = refl
get-unlisted key ((k, tx) ∷ d) h = ground (arith, get-unlisted key d)

-- Where every stored transaction has a hash, the rebuilt index has the entry of each stored
-- transaction and no other, whatever the index was before.
pub rebuild_index_from_records-IsIndexed :
    (s : TxStore) → IsHashed s.records → IsIndexed (rebuild_index_from_records s)
unfolding rebuild_index_from_records
rebuild_index_from_records-IsIndexed s h = record {
  same = λ key. elim (Bool-cases (listed key (map (λ i. i.0) s.records))) [
    | inl e ↦ elim (Option-cases (get key s.records)) [
      | inl missing ↦
          ground (arith, e, missing, get-rebuild_txs s.records h (map (λ i. i.0) s.records) key [])
      | inr (tx, found) ↦
          ground (arith, e, found, get-rebuild_txs s.records h (map (λ i. i.0) s.records) key [])
    ]
    | inr e ↦ ground (
      arith,
      e,
      get-unlisted key s.records e,
      get-rebuild_txs s.records h (map (λ i. i.0) s.records) key [],
    )
  ];
}
