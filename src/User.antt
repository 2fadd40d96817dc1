-- ===== src/User.antt =====
-- The user index service (src/BachiCoin/lib_user/user_index_service.py) as far as wallets and block
-- processing use it: user records, their index entries, and the updates that keep the two in step.
-- The index view holds every field that a user has here, so an entry has the type of a record.
-- Timestamps are left out. `sorted` is the builtin of the language, taken as `sort_keys`.
use bachi_coin.Prelude.{
  Bool, true, false, Option, none, some, List, [], ◌∷◌, ◌++◌, ◌==◌, any_of, if◌then◌else◌, ℤ,
}
use bachi_coin.Dict.{Key, Dict, get, put}

pub record User : Type 0 where
  -- first and last name, joined by a space
  pub full_name : Key
  pub wallet_ids : List Key
  pub total_balance : ℤ

pub record UserStore : Type 0 where
  pub records : Dict User
  pub index : Dict User

-- `_update_index_entry`: an entry that is missing is not made.
abbrev pub update_index_entry : Key → (User → User) → Dict User → Dict User
update_index_entry uid change index = elim (get uid index) [
  | none ↦ index
  | some u ↦ put uid (change u) index
]

unfoldable pub list_users : UserStore → Dict User
list_users s = s.index

unfoldable pub get_user_summary : Key → UserStore → Option User
get_user_summary uid s = get uid s.index

abbrev update_found : Key → (User → User) → Option User → UserStore → Bool × UserStore
update_found uid change none s = (false, s)
update_found uid change (some u) s = (
  true,
  record { records = put uid (change u) s.records; index = update_index_entry uid change s.index },
)

-- `update_user`, with the update as a function on the fields.
unfoldable pub update_user : Key → (User → User) → UserStore → Bool × UserStore
update_user uid change s = update_found uid change (get uid s.records) s

unfoldable pub update_user_balance : Key → ℤ → UserStore → Bool × UserStore
unfolding update_user
update_user_balance uid balance = update_user uid (λ u. record u { total_balance = balance })

-- `list.remove`: the first equal element goes.
pub remove_first : Key → List Key → List Key
remove_first k [] = []
remove_first k (x ∷ xs) = let rest = remove_first k xs in if x == k then xs else x ∷ rest

module _ (sort_keys : List Key → List Key) where
  add_to_found : Key → Key → Option User → UserStore → Bool × UserStore
  unfolding update_user
  add_to_found uid wid none s = (false, s)
  add_to_found uid wid (some u) s =
      if any_of (λ w. w == wid) u.wallet_ids
      then (true, s)
      else update_user uid (λ v. record v { wallet_ids = sort_keys (u.wallet_ids ++ wid ∷ []) }) s

  unfoldable pub add_wallet_to_user : Key → Key → UserStore → Bool × UserStore
  unfolding add_to_found
  add_wallet_to_user uid wid s = add_to_found uid wid (get uid s.records) s

remove_from_found : Key → Key → Option User → UserStore → Bool × UserStore
unfolding update_user
remove_from_found uid wid none s = (true, s)
remove_from_found uid wid (some u) s =
    if any_of (λ w. w == wid) u.wallet_ids
    then update_user uid (λ v. record v { wallet_ids = remove_first wid u.wallet_ids }) s
    else (true, s)

unfoldable pub remove_wallet_from_user : Key → Key → UserStore → Bool × UserStore
unfolding remove_from_found
remove_wallet_from_user uid wid s = remove_from_found uid wid (get uid s.records) s
