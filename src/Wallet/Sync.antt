-- ===== src/Wallet/Sync.antt =====
-- The wallet index against the wallet records: what the operations of the wallet service keep.
use bachi_coin.Prelude.{◌≡◌, Bool, none, some, List, arith, inl, inr, Option-cases}
use bachi_coin.Dict.{Key, Dict, get, put, get-put, get-pop}
use bachi_coin.Wallet.{
  Wallet, WalletStore, Accounts, update_wallet_state, update_index_entry, create_wallet_with_index,
  delete_wallet_with_index,
}

-- The index has an entry for each record, and no other, with the same fields.
pub record IsSynced (s : WalletStore) : Type 0 where
  pub same : (k : Key) → get k s.index ≡ get k s.records

get-update_index_entry :
    (wid k : Key) (change : Wallet → Wallet) (records index : Dict Wallet) (w : Wallet)
    → ((j : Key) → get j index ≡ get j records)
    → get wid records ≡ some w
    → get k (update_index_entry wid change index) ≡ get k (put wid (change w) records)
get-update_index_entry wid k change records index w h e =
    ground (arith, h wid, h k, get-put wid k (change w) records, get-put wid k (change w) index)

-- An update of a wallet, whether the wallet exists or not, keeps the index equal to the records.
pub update_wallet_state-IsSynced :
    (wid : Key) (change : Wallet → Wallet) (s : WalletStore)
    → IsSynced s
    → IsSynced (update_wallet_state wid change s).1
unfolding update_wallet_state
update_wallet_state-IsSynced wid change s h = elim (Option-cases (get wid s.records)) [
  | inl e ↦ record { same = λ k. ground (arith, h.same k) }
  | inr (w, e) ↦ record {
    same = λ k. ground (arith, e, get-update_index_entry wid k change s.records s.index w h.same e);
  }
]

module _ (sort_keys : List Key → List Key) where
  -- Creation keeps the index equal to the records, also where it refuses or raises.
  pub create_wallet_with_index-IsSynced :
      (uid wid : Key) (w : Wallet) (has_errors : Bool) (a : Accounts)
      → IsSynced a.wallets
      → IsSynced (create_wallet_with_index sort_keys uid wid w has_errors a).1.wallets
  unfolding create_wallet_with_index
  create_wallet_with_index-IsSynced uid wid w has_errors a h = record {
    same = λ k. ground (
      arith,
      h.same k,
      h.same wid,
      get-put wid k w a.wallets.records,
      get-put wid k w a.wallets.index,
    );
  }

-- Deletion keeps the index equal to the records, and after it the wallet is gone from both.
pub delete_wallet_with_index-IsSynced :
    (wid : Key) (a : Accounts)
    → IsSynced a.wallets
    → let a' = (delete_wallet_with_index wid a).1 in
      IsSynced a'.wallets × (get wid a'.wallets.records ≡ none)
unfolding delete_wallet_with_index
delete_wallet_with_index-IsSynced wid a h = elim (Option-cases (get wid a.wallets.records)) [
  | inl e ↦ (record { same = λ k. ground (arith, e, h.same k) }, ground (arith, e))
  | inr (w, e) ↦ (
    record {
      same = λ k.
          ground
            (arith, e, h.same k, get-pop wid k a.wallets.records, get-pop wid k a.wallets.index);
    },
    ground (arith, e, get-pop wid wid a.wallets.records),
  )
]
