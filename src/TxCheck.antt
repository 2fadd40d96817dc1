-- ===== src/TxCheck.antt =====
-- The rules for a single transaction (src/BachiCoin/lib_transaction/tx_validation.py, with the
-- schema of tx_config.py). The formats are regular expressions on texts: they are the fields of
-- `TxFormats`. A transaction has valid texts for its network and its priority, and its fields have
-- the types of the schema. The fields that `Tx` does not have (chain_id, tx_version, currency, the
-- texts of the times, block_hash, ...) are taken as the creation of a transaction fills them in:
-- present, and valid. A hash 0 is a hash that is not there yet; the empty text does not occur.
pub mod Shape
use bachi_coin.Prelude.{
  ℕ, Bool, true, false, not, Option, none, some, List, [], ◌∷◌, ◌++◌, ltb, ◌==◌, if◌then◌else◌, ℤ,
  pos, ltb_ℤ,
}
use bachi_coin.Dict.{Key}
use bachi_coin.Tx.{Tx, TxType}

abbrev pub min_gas_limit : ℕ
min_gas_limit = 21000

-- The fields whose presence depends on the type.
pub data TxField : Type 0 where
  from_address to_address nonce signature : TxField

-- The messages of the validation functions.
pub data TxError : Type 0 where
  requires must_not_have : TxField → TxError
  same_addresses invalid_type : TxError
  max_fee_not_positive priority_fee_negative priority_above_max gas_limit_too_low : TxError
  below_minimum invalid_hash invalid_address invalid_signature : TxError

pub record TxFormats : Type 0 where
  pub is_valid_tx_hash : Key → Bool
  pub is_valid_address : Key → Bool
  pub is_valid_signature : Key → Bool

abbrev pub error_if : Bool → TxError → List TxError
error_if b e = if b then e ∷ [] else []

abbrev pub is_present : Option ℕ → Bool
is_present none = false
is_present (some _) = true

abbrev check_present : TxField → Option ℕ → List TxError
check_present field value = error_if (not (is_present value)) (requires field)

abbrev check_absent : TxField → Option ℕ → List TxError
check_absent field value = error_if (is_present value) (must_not_have field)

-- `from_addr == to_addr`, where two missing addresses are equal.
abbrev pub same_address : Option Key → Option Key → Bool
same_address none none = true
same_address (some a) (some b) = a == b
same_address _ _ = false

-- The branch of mint, reward and pool.
created : Tx → List TxError
created tx =
    check_absent from_address tx.from_address
    ++ check_present to_address tx.to_address
    ++ check_absent nonce tx.nonce
    ++ check_absent signature tx.signature

-- The common part of transfer, stake and unstake.
moved : Tx → List TxError
moved tx =
    check_present from_address tx.from_address
    ++ check_present to_address tx.to_address
    ++ check_present nonce tx.nonce
    ++ check_present signature tx.signature

-- The branch of contract calls and governance.
signed : Tx → List TxError
signed tx =
    check_present from_address tx.from_address
    ++ check_present nonce tx.nonce
    ++ check_present signature tx.signature

structure_errors : TxType → Tx → List TxError
unfolding created moved signed
structure_errors TxType.mint tx = created tx
structure_errors TxType.reward tx = created tx
structure_errors TxType.pool tx = created tx
structure_errors TxType.burn tx =
    check_present from_address tx.from_address
    ++ check_absent to_address tx.to_address
    ++ check_present nonce tx.nonce
structure_errors TxType.slash tx =
    check_present from_address tx.from_address
    ++ check_absent to_address tx.to_address
    ++ check_absent nonce tx.nonce
    ++ check_absent signature tx.signature
structure_errors TxType.transfer tx =
    moved tx ++ error_if (same_address tx.from_address tx.to_address) same_addresses
structure_errors TxType.stake tx = moved tx
structure_errors TxType.unstake tx = moved tx
structure_errors _ tx = signed tx

-- `validate_structure_by_type`
unfoldable pub validate_structure_by_type : Tx → List TxError
unfolding structure_errors
validate_structure_by_type tx = structure_errors tx.tx_type tx

-- `validate_gas_fees`
unfoldable pub validate_gas_fees : Tx → List TxError
validate_gas_fees tx =
    error_if (not (ltb_ℤ (pos 0) tx.max_fee_per_gas)) max_fee_not_positive
    ++ error_if (ltb_ℤ tx.max_priority_fee_per_gas (pos 0)) priority_fee_negative
    ++ error_if (ltb_ℤ tx.max_fee_per_gas tx.max_priority_fee_per_gas) priority_above_max
    ++ error_if (ltb tx.gas_limit min_gas_limit) gas_limit_too_low

-- `validate_enums`: only the type can be invalid.
unfoldable pub validate_enums : TxType → List TxError
validate_enums TxType.unknown = invalid_type ∷ []
validate_enums _ = []

abbrev pub format_errors : (Key → Bool) → Option Key → TxError → List TxError
format_errors valid none e = []
format_errors valid (some k) e = error_if (not (valid k)) e

-- A missing hash is not required.
abbrev hash_errors : TxFormats → Key → List TxError
hash_errors f hash = if hash == 0 then [] else error_if (not (f.is_valid_tx_hash hash)) invalid_hash

-- `validate_field` at the fields of `Tx` that have a bound or a format.
unfoldable pub validate_fields : TxFormats → Tx → List TxError
validate_fields f tx =
    hash_errors f tx.tx_hash
    ++ format_errors f.is_valid_address tx.from_address invalid_address
    ++ format_errors f.is_valid_address tx.to_address invalid_address
    ++ error_if (ltb_ℤ tx.amount (pos 0)) below_minimum
    ++ error_if (ltb tx.gas_limit min_gas_limit) below_minimum
    ++ error_if (ltb_ℤ tx.max_fee_per_gas (pos 0)) below_minimum
    ++ error_if (ltb_ℤ tx.max_priority_fee_per_gas (pos 0)) below_minimum
    ++ format_errors f.is_valid_signature tx.signature invalid_signature

abbrev after_enums : TxFormats → Tx → List TxError → List TxError
after_enums f tx [] = validate_structure_by_type tx ++ validate_gas_fees tx ++ validate_fields f tx
after_enums f tx (e ∷ es) = e ∷ es

-- `validate_transaction`, before the errors are sorted and their repetitions removed, which keeps
-- whether there are any.
unfoldable pub validate_transaction : TxFormats → Tx → List TxError
unfolding validate_enums validate_structure_by_type validate_gas_fees validate_fields
validate_transaction f tx = after_enums f tx (validate_enums tx.tx_type)
