-- ===== src/Wallet.antt =====
-- The wallet index service and its helper (src/BachiCoin/lib_wallet/wallet_index_service.py,
-- wallet_helper.py): wallet records, the index that repeats them, and the operations on both. The
-- index view holds every field that a wallet has here, so an entry has the type of a record.
-- A balance is the decimal that `_to_decimal` reads from the stored float, in units of the eighth
-- place; `Rounding` stands for the trip of a decimal through a float. Storage is reliable: `save`,
-- `update` and `delete` fail only where the record is missing.
pub mod Sync
pub mod Limit
use bachi_coin.Prelude.{
  ℕ, ◌+◌, ◌≤◌, ◌≡◌, Bool, true, false, Option, none, some, List, [], ◌∷◌, ◌==◌, leb, any_of, length,
  if◌then◌else◌, ℤ, pos, ◌+ℤ◌,
}
use bachi_coin.Dict.{Key, Dict, get, put, pop, contains}
use bachi_coin.User.{
  User, UserStore, get_user_summary, update_user_balance, add_wallet_to_user,
  remove_wallet_from_user,
}

pub data WalletType : Type 0 where
  default private business charity savings investment mint burn pool : WalletType

pub record Wallet : Type 0 where
  pub user_id : Key
  pub name : Key
  pub wallet_type : WalletType
  pub status : Key
  pub balance : ℤ
  pub nonce : ℕ
  pub addresses : List Key

pub record WalletStore : Type 0 where
  pub records : Dict Wallet
  pub index : Dict Wallet

-- What floats do to decimals. `store`: a decimal is turned into a float, rounded to eight places,
-- written as JSON, and read back as a decimal. `add`: the reading of the sum of two floats.
pub record Rounding : Type 0 where
  pub store : ℤ → ℤ
  pub add : ℤ → ℤ → ℤ

-- Floats hold the decimals from zero up to `limit` exactly, and add them exactly.
pub record IsExact (r : Rounding) (limit : ℕ) : Type 0 where
  pub store_exact : (n : ℕ) → n ≤ limit → r.store (pos n) ≡ pos n
  pub add_exact : (m n : ℕ) → m + n ≤ limit → r.add (pos m) (pos n) ≡ pos (m + n)

abbrev pub max_wallet_count : ℕ
max_wallet_count = 7

-- Index helpers of wallet_helper.py.
abbrev pub create_index_entry : Key → Wallet → Dict Wallet → Dict Wallet
create_index_entry wid w index = put wid w index

abbrev pub update_index_entry : Key → (Wallet → Wallet) → Dict Wallet → Dict Wallet
update_index_entry wid change index = elim (get wid index) [
  | none ↦ index
  | some w ↦ put wid (change w) index
]

abbrev pub remove_index_entry : Key → Dict Wallet → Dict Wallet
remove_index_entry wid index = pop wid index

unfoldable pub get_wallet : Key → WalletStore → Option Wallet
get_wallet wid s = get wid s.records

unfoldable pub get_wallet_summary : Key → WalletStore → Option Wallet
get_wallet_summary wid s = get wid s.index

abbrev owned_by : Key → Dict Wallet → Dict Wallet
owned_by uid [] = []
owned_by uid ((k, w) ∷ d) =
    let rest = owned_by uid d in if w.user_id == uid then (k, w) ∷ rest else rest

unfoldable pub list_wallets_by_user : Key → WalletStore → Dict Wallet
list_wallets_by_user uid s = owned_by uid s.index

-- The scan over the records stops at the first wallet that has the address.
find_address : Key → Dict Wallet → Option Key
find_address addr [] = none
find_address addr ((k, w) ∷ d) =
    let rest = find_address addr d in if any_of (λ a. a == addr) w.addresses then some k else rest

unfoldable pub get_wallet_id_by_address : Key → WalletStore → Option Key
unfolding find_address
get_wallet_id_by_address addr s = find_address addr s.records

abbrev update_found : Key → (Wallet → Wallet) → Option Wallet → WalletStore → Bool × WalletStore
update_found wid change none s = (false, s)
update_found wid change (some w) s = (
  true,
  record { records = put wid (change w) s.records; index = update_index_entry wid change s.index },
)

-- `update_wallet_state`: the record, then the same fields of the index entry.
unfoldable pub update_wallet_state : Key → (Wallet → Wallet) → WalletStore → Bool × WalletStore
update_wallet_state wid change s = update_found wid change (get wid s.records) s

-- `update_account_state` with a balance, and with a nonce. No caller gives both or none.
unfoldable pub update_balance : Rounding → Key → ℤ → WalletStore → Bool × WalletStore
unfolding update_wallet_state
update_balance r wid b = update_wallet_state wid (λ w. record w { balance = r.store b })

unfoldable pub update_nonce : Key → ℕ → WalletStore → Bool × WalletStore
unfolding update_wallet_state
update_nonce wid n = update_wallet_state wid (λ w. record w { nonce = n })

-- A wallet service with the user service that it holds.
pub record Accounts : Type 0 where
  pub wallets : WalletStore
  pub users : UserStore

module _ (sort_keys : List Key → List Key) where
  -- From the prepared wallet on: its identifier, its data, and whether its validation found errors.
  -- `none` is the `ValueError` of a failed validation.
  unfoldable pub create_wallet_with_index :
      Key → Key → Wallet → Bool → Accounts → Option (Option Key) × Accounts
  create_wallet_with_index uid wid w has_errors a =
      if leb max_wallet_count (length (owned_by uid a.wallets.index))
      then (some none, a)
      else if has_errors
      then (none, a)
      else if contains wid a.wallets.records
      then (some (some wid), a)
      else (
        some (some wid),
        record {
          wallets = record {
            records = put wid w a.wallets.records;
            index = create_index_entry wid w a.wallets.index;
          };
          users = (add_wallet_to_user sort_keys uid wid a.users).1;
        },
      )

delete_found : Key → Option Wallet → Accounts → Option Bool × Accounts
delete_found wid none a = (none, a)
delete_found wid (some w) a = (
  some true,
  record {
    wallets = record {
      records = pop wid a.wallets.records;
      index = remove_index_entry wid a.wallets.index;
    };
    users = if w.user_id == 0 then a.users else (remove_wallet_from_user w.user_id wid a.users).1;
  },
)

-- `none` is the failing assertion that the wallet exists.
unfoldable pub delete_wallet_with_index : Key → Accounts → Option Bool × Accounts
unfolding delete_found
delete_wallet_with_index wid a = delete_found wid (get wid a.wallets.records) a

-- `sum` over the summaries of a user's wallets, as `reconcile_user_balance` runs it.
abbrev pub sum_summaries : Rounding → List Key → ℤ → Dict Wallet → ℤ
sum_summaries r [] acc index = acc
sum_summaries r (wid ∷ wids) acc index =
    sum_summaries r wids (elim (get wid index) [ none ↦ acc | some w ↦ r.add acc w.balance ]) index

reconcile_found : Rounding → Key → Option User → Accounts → Bool × Accounts
reconcile_found r uid none a = (false, a)
reconcile_found r uid (some u) a =
    let (done, users) =
      update_user_balance uid (sum_summaries r u.wallet_ids (pos 0) a.wallets.index) a.users in
    (done, record a { users = users })

unfoldable pub reconcile_user_balance : Rounding → Key → Accounts → Bool × Accounts
unfolding reconcile_found
reconcile_user_balance r uid a = reconcile_found r uid (get uid a.users.index) a
