-- ===== src/Submission.antt =====
-- The making, signing and submission of transactions
-- (src/BachiCoin/lib_transaction/tx_submittal.py, with create_tx_with_index of
-- tx_index_service.py and its helpers, and get_nonce of src/BachiCoin/lib_nonce/nonce.py).
pub mod Created
pub mod Signed
pub mod Batch
pub mod Kept
pub mod Numbered
pub mod Noted
pub mod Errors
pub mod Subscript
use bachi_coin.Prelude.{ℕ, Bool, true, false, Option, none, some, if◌then◌else◌, ℤ}
use bachi_coin.Dict.{Key, Dict, get}
use bachi_coin.Exec.{
  Result, ok, err, address_unmapped, no_tx_type, nonce_missing, nonce_forbidden, no_private_key,
  key_error,
}
use bachi_coin.Tx.{
  Tx, TxType, Fees, Priority, fee_defaults, gwei, calculate_effective_gas_price,
  calculate_total_fee,
}
use bachi_coin.Signer.{Crypto, create_canonical_tx_hash, truthy}
use bachi_coin.TxCheck.{TxFormats}
use bachi_coin.TxIndex.{TxStore, save_signed_transaction}

-- What `create_signed_tx` gives to `create_tx_with_index` as `tx_data`.
pub record TxPayload : Type 0 where
  pub amount : ℤ
  pub tx_type : TxType
  pub fees : Fees

abbrev pub default_gas_limit : ℕ
default_gas_limit = 21000

-- `create_tx_with_index`, with `apply_tx_defaults` and `populate_jit_fields`. The hash and the
-- signature are missing; their defaults are written before they are read.
unfoldable pub create_tx_with_index : Option Key → Option Key → TxPayload → Option ℕ → Tx
create_tx_with_index from_address to_address d nonce = record {
  tx_hash = 0;
  tx_type = d.tx_type;
  from_address = from_address;
  to_address = to_address;
  nonce = nonce;
  amount = d.amount;
  total_fee = calculate_total_fee default_gas_limit (
      calculate_effective_gas_price d.fees.max_fee_per_gas d.fees.max_priority_fee_per_gas
        (gwei 20));
  max_fee_per_gas = d.fees.max_fee_per_gas;
  max_priority_fee_per_gas = d.fees.max_priority_fee_per_gas;
  gas_limit = default_gas_limit;
  gas_used = some default_gas_limit;
  signature = none;
}

-- `USER_SIGNED_TX_TYPES`
unfoldable pub is_user_signed : TxType → Bool
is_user_signed TxType.transfer = true
is_user_signed TxType.stake = true
is_user_signed TxType.unstake = true
is_user_signed TxType.burn = true
is_user_signed _ = false

-- A reference to a wallet; either key may be missing.
pub record Ref : Type 0 where
  pub user : Option Key
  pub wallet : Option Key

-- A template; a key that it does not have is `none`.
pub record Template : Type 0 where
  pub tx_type : Option TxType
  pub from_ref : Option Ref
  pub to_ref : Option Ref
  pub amount : Option ℤ
  pub priority : Priority

-- The address book, and the text `f"{user}_{wallet}"` of two texts.
pub record Book : Type 0 where
  pub addresses : Dict Key
  pub ref_text : Key → Key → Key

abbrev pub and_then {ℓ κ} : {A : Type ℓ} {B : Type κ} → Result A → (A → Result B) → Result B
and_then (ok a) f = f a
and_then (err e) f = err e

-- `ref[key]`, or `tx_template["amount"]`
abbrev pub or_key_error {ℓ} : {A : Type ℓ} → Option A → Result A
or_key_error none = err key_error
or_key_error (some a) = ok a

-- The key of the book for a reference.
unfoldable pub ref_key : Book → Ref → Result Key
ref_key book ref =
    and_then (or_key_error ref.user)
      (λ user. and_then (or_key_error ref.wallet) (λ wallet. ok (book.ref_text user wallet)))

-- The text "Ledger System_pool".
abbrev pub pool_ref : Key
pool_ref = 1

-- An address of the book, which is neither missing nor empty.
unfoldable pub known_address : Book → Key → Option Key
known_address book key = truthy (get key book.addresses)

abbrev pub or_unmapped : Option Key → Result (Option Key)
or_unmapped none = err address_unmapped
or_unmapped (some address) = ok (some address)

unfoldable pub resolve_from : Book → Option Ref → Result (Option Key)
resolve_from book none = ok none
resolve_from book (some ref) =
    and_then (ref_key book ref) (λ key. or_unmapped (known_address book key))

unfoldable pub resolve_unstake : Book → Option Ref → Option Key → Result (Option Key)
resolve_unstake book none from = ok from
resolve_unstake book (some ref) from =
    and_then (ref_key book ref) (λ key. ok (get key book.addresses))

-- The receiver by the type. That of an unstake may be unknown.
unfoldable pub resolve_to : Book → TxType → Option Ref → Option Key → Result (Option Key)
resolve_to book TxType.stake to_ref from = or_unmapped (known_address book pool_ref)
resolve_to book TxType.unstake to_ref from = resolve_unstake book to_ref from
resolve_to book _ to_ref from = resolve_from book to_ref

unfoldable pub check_nonce : Bool → Option ℕ → Result (Option ℕ)
check_nonce true none = err nonce_missing
check_nonce true (some n) = ok (some n)
check_nonce false none = ok none
check_nonce false (some n) = err nonce_forbidden

unfoldable pub prepare_typed : Book → Template → TxType → Option ℕ → Result Tx
prepare_typed book t type nonce = and_then (resolve_from book t.from_ref) (λ from.
    and_then (resolve_to book type t.to_ref from) (λ to.
      and_then (check_nonce (is_user_signed type) nonce) (λ n.
        and_then (or_key_error t.amount) (λ amount. ok (
          create_tx_with_index from to
            (record { amount = amount; tx_type = type; fees = fee_defaults t.priority }) n)))))

-- The unsigned transaction of a template.
unfoldable pub prepare : Book → Template → Option ℕ → Result Tx
prepare book t nonce = elim t.tx_type [
  | none ↦ err no_tx_type
  | some type ↦ prepare_typed book t type nonce
]

-- `pvt_key_map` and an address that may be missing; an empty key counts as none.
unfoldable pub get_pvt_key_for_address : Option (Dict Key) → Option Key → Option Key
get_pvt_key_for_address (some keys) (some address) = truthy (get address keys)
get_pvt_key_for_address _ _ = none

unfoldable pub sign_with : Crypto → Tx → Option Key → Result Tx
sign_with c tx none = err no_private_key
sign_with c tx (some private_key) =
    ok (record tx { signature = some (c.sign_message_recoverable tx.tx_hash private_key) })

-- The hash, and the signature where the type needs one.
unfoldable pub sign_if_required : Crypto → Option (Dict Key) → Tx → Result Tx
sign_if_required c keys tx =
    let hashed = record tx { tx_hash = create_canonical_tx_hash c tx } in
    if is_user_signed tx.tx_type
    then sign_with c hashed (get_pvt_key_for_address keys tx.from_address)
    else ok (record hashed { signature = none })

unfoldable pub save_final : TxFormats → Result Tx → TxStore → Result Tx × TxStore
save_final f (err e) s = (err e, s)
save_final f (ok tx) s =
    let (r, s') = save_signed_transaction f tx s in (and_then r (λ _. ok tx), s')

-- `create_signed_tx`
unfoldable pub create_signed_tx :
    Crypto
    → TxFormats
    → Book
    → Option (Dict Key)
    → Template
    → Option ℕ
    → TxStore
    → Result Tx × TxStore
create_signed_tx c f book keys t nonce s =
    save_final f (and_then (prepare book t nonce) (sign_if_required c keys)) s
