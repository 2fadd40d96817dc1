-- ===== src/Admission.antt =====
-- The admission rules of the mempool (src/BachiCoin/lib_mempool/mempool_config.py). The format
-- tests are regular expressions on texts, and the size is that of a printed dict: they are fields of
-- `Formats`. A transaction has all keys of its schema, and `none` is a `None`.
use bachi_coin.Prelude.{
  ℕ, ◌+◌, Bool, true, false, not, Option, none, some, List, [], ◌∷◌, ◌++◌, ltb, leb, ◌==◌, any_of,
  if◌then◌else◌, ℤ, pos, ltb_ℤ,
}
use bachi_coin.Dict.{Key}
use bachi_coin.Tx.{Tx, TxType}

abbrev pub max_pool_size : ℕ
max_pool_size = 5000

abbrev pub max_pending_per_account : ℕ
max_pending_per_account = 16

-- 1.0 gwei
abbrev pub min_priority_fee : ℤ
min_priority_fee = pos 1000000000

abbrev pub max_nonce_gap : ℕ
max_nonce_gap = 1000

abbrev pub max_tx_size_bytes : ℕ
max_tx_size_bytes = 131072

abbrev min_gas_limit : ℕ
min_gas_limit = 21000

abbrev max_gas_limit : ℕ
max_gas_limit = 30000000

-- The messages of the validation functions.
pub data Rejection : Type 0 where
  missing_tx_hash missing_from missing_to missing_nonce : Rejection
  bad_hash bad_from bad_to bad_signature : Rejection
  pool_is_full too_many_pending fee_too_low gas_too_low gas_too_high too_large : Rejection
  nonce_too_low nonce_gap nonce_pending : Rejection
  different_sender different_nonce bump_insufficient priority_bump_insufficient : Rejection

pub record Formats : Type 0 where
  pub is_valid_tx_hash : Key → Bool
  pub is_valid_address : Key → Bool
  pub is_valid_signature : Tx → Bool
  pub tx_size : Tx → ℕ

-- The dict that `get_current_pool_state` makes; its memory usage is never read.
pub record PoolState : Type 0 where
  pub total_size : ℕ
  pub account_pending : Option Key → ℕ

-- The dict of `_get_account_state`; a missing key is `none`.
pub record AccountState : Type 0 where
  pub canonical_nonce : Option ℕ
  pub next_nonce : Option ℕ
  pub pending_nonces : List ℕ

abbrev pub when : Bool → Rejection → List Rejection
when b e = if b then e ∷ [] else []

abbrev is_none : Option ℕ → Bool
is_none none = true
is_none (some _) = false

abbrev pub same_option : Option ℕ → Option ℕ → Bool
same_option none none = true
same_option (some a) (some b) = a == b
same_option _ _ = false

-- `validate_pool_admission`
unfoldable pub validate_pool_admission : Formats → Tx → PoolState → List Rejection
validate_pool_admission f tx p =
    when (leb max_pool_size p.total_size) pool_is_full
    ++ when (leb max_pending_per_account (p.account_pending tx.from_address)) too_many_pending
    ++ when (ltb_ℤ tx.max_priority_fee_per_gas min_priority_fee) fee_too_low
    ++ when (ltb tx.gas_limit min_gas_limit) gas_too_low
    ++ when (ltb max_gas_limit tx.gas_limit) gas_too_high
    ++ when (ltb max_tx_size_bytes (f.tx_size tx)) too_large

abbrev pub or_zero : Option ℕ → ℕ
or_zero none = 0
or_zero (some n) = n

-- `validate_nonce_sequence`, for a transaction with a nonce.
unfoldable pub validate_nonce_sequence : ℕ → AccountState → List Rejection
validate_nonce_sequence tx_nonce a =
    let account_nonce = or_zero a.next_nonce in
    when (ltb tx_nonce account_nonce) nonce_too_low
    ++ when (ltb (account_nonce + max_nonce_gap) tx_nonce) nonce_gap
    ++ when (any_of (λ n. n == tx_nonce) a.pending_nonces) nonce_pending

-- The fields that each type requires.
unfoldable pub required_fields : TxType → Tx → List Rejection
required_fields TxType.transfer tx =
    when (is_none tx.from_address) missing_from
    ++ when (is_none tx.to_address) missing_to
    ++ when (is_none tx.nonce) missing_nonce
required_fields TxType.stake tx =
    when (is_none tx.from_address) missing_from
    ++ when (is_none tx.to_address) missing_to
    ++ when (is_none tx.nonce) missing_nonce
required_fields TxType.unstake tx =
    when (is_none tx.from_address) missing_from
    ++ when (is_none tx.to_address) missing_to
    ++ when (is_none tx.nonce) missing_nonce
required_fields TxType.burn tx =
    when (is_none tx.from_address) missing_from ++ when (is_none tx.nonce) missing_nonce
required_fields TxType.slash tx = when (is_none tx.from_address) missing_from
required_fields TxType.mint tx = when (is_none tx.to_address) missing_to
required_fields TxType.reward tx = when (is_none tx.to_address) missing_to
required_fields _ tx = []

abbrev bad_address : Formats → Option Key → Bool
bad_address f none = false
bad_address f (some addr) = not (f.is_valid_address addr)

-- `validate_transaction_format`
unfoldable pub validate_transaction_format : Formats → Tx → List Rejection
unfolding required_fields
validate_transaction_format f tx =
    when (tx.tx_hash == 0) missing_tx_hash
    ++ required_fields tx.tx_type tx
    ++ when (not (f.is_valid_tx_hash tx.tx_hash)) bad_hash
    ++ when (bad_address f tx.from_address) bad_from
    ++ when (bad_address f tx.to_address) bad_to
    ++ when (not (f.is_valid_signature tx)) bad_signature

abbrev pub nonce_errors : Option ℕ → AccountState → List Rejection
unfolding validate_nonce_sequence
nonce_errors none a = []
nonce_errors (some n) a = validate_nonce_sequence n a

-- `validate_mempool_transaction`
unfoldable pub validate_mempool_transaction :
    Formats → Tx → PoolState → AccountState → List Rejection
unfolding validate_transaction_format validate_pool_admission validate_nonce_sequence
validate_mempool_transaction f tx p a =
    validate_transaction_format f tx ++ validate_pool_admission f tx p ++ nonce_errors tx.nonce a
