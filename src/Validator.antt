-- ===== src/Validator.antt =====
-- The validator registry (src/BachiCoin/lib_validator/validator_index_service.py and
-- validator_helper.py). The index files `validators` under the text of a number, which is the
-- number here. The key derivation of a wallet is not modelled: its result is an argument.
pub mod Registered
use bachi_coin.Prelude.{
  ℕ, ◌+◌, Bool, true, false, not, ◌&&◌, Option, none, some, List, [], ◌∷◌, ◌==◌, leb, if◌then◌else◌,
}
use bachi_coin.Dict.{Key, Dict, get, put, contains}
use bachi_coin.Exec.{Result, ok, err, assertion_failed}
use bachi_coin.User.{User, UserStore, get_user_summary}
use bachi_coin.Wallet.{Wallet, WalletStore, get_wallet}

pub data ValidatorStatus : Type 0 where
  active_ongoing active_exiting active_slashed : ValidatorStatus
  pending_initialized pending_queued : ValidatorStatus
  exited_unslashed exited_slashed withdrawal_possible withdrawal_done : ValidatorStatus

pub record Validator : Type 0 where
  pub validator_index : ℕ
  pub pubkey : Key
  pub withdrawal_credentials : Key
  pub effective_balance : ℕ
  pub slashed : Bool
  pub status : ValidatorStatus
  pub user_id : Key

pub record ValidatorIndex : Type 0 where
  pub validators : Dict Validator
  pub by_pubkey : Dict ℕ
  pub by_user : Dict ℕ
  pub total_validators : ℕ

pub record Registry : Type 0 where
  pub records : Dict Validator
  pub index : ValidatorIndex

abbrev pub min_deposit_amount : ℕ
min_deposit_amount = 32000000000

-- `create_genesis_validator_data`, with the user that `register_validator` adds.
unfoldable pub create_genesis_validator_data : ℕ → Key → Key → Key → Validator
create_genesis_validator_data i pubkey credentials uid = record {
  validator_index = i;
  pubkey = pubkey;
  withdrawal_credentials = credentials;
  effective_balance = min_deposit_amount;
  slashed = false;
  status = ValidatorStatus.active_ongoing;
  user_id = uid;
}

unfoldable pub add_validator_to_index : Validator → Key → ValidatorIndex → ValidatorIndex
add_validator_to_index v uid d = record {
  validators = put v.validator_index v d.validators;
  by_pubkey = put v.pubkey v.validator_index d.by_pubkey;
  by_user = put uid v.validator_index d.by_user;
  total_validators = d.total_validators + 1;
}

-- The fields of the updated record replace those of the entry, which are all its fields.
unfoldable pub update_validator_in_index : Validator → ValidatorIndex → ValidatorIndex
update_validator_in_index v d =
    if contains v.validator_index d.validators
    then record d { validators = put v.validator_index v d.validators }
    else d

unfoldable pub get_validator : ℕ → Registry → Option Validator
get_validator i s = get i s.records

unfoldable pub load_found : Option ℕ → Registry → Option Validator
load_found none s = none
load_found (some i) s = get i s.records

unfoldable pub find_validator_by_user : Key → Registry → Option Validator
unfolding load_found
find_validator_by_user uid s = load_found (get uid s.index.by_user) s

unfoldable pub find_validator_by_pubkey : Key → Registry → Option Validator
unfolding load_found
find_validator_by_pubkey pubkey s = load_found (get pubkey s.index.by_pubkey) s

-- The record and the index entry of a new validator, under the next number.
unfoldable pub add_validator : Key → Key → Key → Registry → Registry
unfolding create_genesis_validator_data add_validator_to_index
add_validator uid pubkey credentials s =
    let i = s.index.total_validators in
    let v = create_genesis_validator_data i pubkey credentials uid in
    record { records = put i v s.records; index = add_validator_to_index v uid s.index }

-- What a wallet gives: the public key, and its address as withdrawal credentials. `none` is a
-- failing assertion.
pub record WalletKeys : Type 0 where
  pub extract_validator_pubkey : Wallet → Option Key
  pub eoa_credentials : Wallet → Option Key

abbrev pub credentials_for : WalletKeys → Key → Wallet → Option Key
credentials_for k given w = if given == 0 then k.eoa_credentials w else some given

unfoldable pub register_with : Key → Option Key → Option Key → Registry → Result ℕ × Registry
unfolding add_validator
register_with uid (some pubkey) (some credentials) s =
    (ok s.index.total_validators, add_validator uid pubkey credentials s)
register_with uid _ _ s = (err assertion_failed, s)

unfoldable pub register_owner :
    WalletKeys → Key → Key → Option User → Option Wallet → Registry → Result ℕ × Registry
unfolding register_with
register_owner k uid given (some u) (some w) s =
    if w.user_id == uid
    then register_with uid (k.extract_validator_pubkey w) (credentials_for k given w) s
    else (err assertion_failed, s)
register_owner k uid given _ _ s = (err assertion_failed, s)

unfoldable pub register_new :
    WalletKeys
    → Key
    → Key
    → Key
    → UserStore
    → WalletStore
    → Option Validator
    → Registry
    → Result ℕ × Registry
unfolding register_owner get_wallet get_user_summary
register_new k uid wid given users wallets (some v) s = (ok v.validator_index, s)
register_new k uid wid given users wallets none s =
    register_owner k uid given (get_user_summary uid users) (get_wallet wid wallets) s

-- `register_validator`; credentials of 0 are none.
unfoldable pub register_validator :
    WalletKeys → Key → Key → Key → UserStore → WalletStore → Registry → Result ℕ × Registry
unfolding register_new find_validator_by_user
register_validator k uid wid given users wallets s =
    register_new k uid wid given users wallets (find_validator_by_user uid s) s

unfoldable pub set_status : ℕ → ValidatorStatus → Option Validator → Registry → Bool × Registry
unfolding update_validator_in_index
set_status i status none s = (false, s)
set_status i status (some v) s =
    let v' = record v { status = status } in
    (true, record { records = put i v' s.records; index = update_validator_in_index v' s.index })

-- `update_validator_status`.
unfoldable pub update_validator_status : ℕ → ValidatorStatus → Registry → Bool × Registry
unfolding set_status
update_validator_status i status s = set_status i status (get i s.records) s

abbrev is_ongoing : ValidatorStatus → Bool
is_ongoing ValidatorStatus.active_ongoing = true
is_ongoing _ = false

abbrev insert_number : ℕ → List ℕ → List ℕ
insert_number n [] = n ∷ []
insert_number n (m ∷ ms) = let rest = insert_number n ms in if leb n m then n ∷ m ∷ ms else m ∷ rest

abbrev ongoing : Dict Validator → List ℕ
ongoing [] = []
ongoing ((i, v) ∷ d) =
    let rest = ongoing d in if is_ongoing v.status then insert_number i rest else rest

-- `get_active_validators`
unfoldable pub get_active_validators : Registry → List ℕ
get_active_validators s = ongoing s.index.validators

abbrev pub stake_of : Dict Validator → ℕ
stake_of [] = 0
stake_of ((_, v) ∷ d) = v.effective_balance + stake_of d

-- The `total_effective_balance` of `summarize_validators`.
unfoldable pub total_effective_balance : Registry → ℕ
total_effective_balance s = stake_of s.index.validators
