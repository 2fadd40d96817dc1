-- ===== src/Wallet/Limit.antt =====
-- The limit on the number of wallets of a user.
use bachi_coin.Prelude.{
  ◌+◌, ◌≤◌, ◌≡◌, Bool, none, List, [], ◌∷◌, arith, ◌==◌, length, if◌then◌else◌,
}
use bachi_coin.Dict.{Key, Dict, get, put}
use bachi_coin.Wallet.{
  Wallet, Accounts, owned_by, list_wallets_by_user, max_wallet_count, create_wallet_with_index,
}
use bachi_coin.Wallet.Sync.{IsSynced}

-- Each user has at most `max_wallet_count` wallets in the index.
pub record WithinLimit (a : Accounts) : Type 0 where
  pub at_user : (uid : Key) → length (list_wallets_by_user uid a.wallets) ≤ max_wallet_count

length-owned_by-put :
    (uid wid : Key) (w : Wallet) (d : Dict Wallet)
    → get wid d ≡ none
    → length (owned_by uid (put wid w d))
      ≡ (if w.user_id == uid then length (owned_by uid d) + 1 else length (owned_by uid d))
length-owned_by-put uid wid w [] e = ground arith
length-owned_by-put uid wid w ((k, v) ∷ d) e = ground (arith, length-owned_by-put uid wid w d)

-- Creation never takes a user past the limit, provided that the prepared wallet belongs to the
-- user that asks and that the index is equal to the records.
pub create_wallet_with_index-WithinLimit :
    (sort_keys : List Key → List Key) (uid wid : Key) (w : Wallet) (has_errors : Bool)
    (a : Accounts)
    → w.user_id ≡ uid
    → IsSynced a.wallets
    → WithinLimit a
    → WithinLimit (create_wallet_with_index sort_keys uid wid w has_errors a).1
unfolding create_wallet_with_index list_wallets_by_user
create_wallet_with_index-WithinLimit sort_keys uid wid w has_errors a own sync h = record {
  at_user = λ other. ground (
    arith,
    own,
    h.at_user other,
    h.at_user uid,
    sync.same wid,
    length-owned_by-put other wid w a.wallets.index,
  );
}
