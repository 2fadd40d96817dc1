-- ===== src/BlockCheck.antt =====
-- The rules for a new block (src/BachiCoin/lib_blockchain/blockchain_validation.py, as
-- `assert_valid_creation_data` runs them). A block is seen through `Fields`, which are what
-- `_get_field_from_block` finds in its header, its body or at its root; the numbers that are not
-- optional here are filled in before the validation. The patterns of a block hash, a Merkle root and
-- a Verkle root are one regular expression, which is a parameter. Transactions are objects, not
-- bare hashes, and a hash 0 is a hash that is missing.
pub mod Checks
pub mod Creatable
use bachi_coin.Prelude.{
  ℕ, ◌+◌, Bool, true, false, not, ◌&&◌, ◌||◌, Option, none, some, List, [], ◌∷◌, ◌++◌, length, ltb,
  ◌==◌, if◌then◌else◌, ℤ, pos, ltb_ℤ,
}
use bachi_coin.Dict.{Key}
use bachi_coin.Tx.{Tx}
use bachi_coin.Block.{BlockStatus}
use bachi_coin.Chain.{genesis_parent}
use bachi_coin.Fee.{min_base_fee}

abbrev pub min_gas_limit : ℕ
min_gas_limit = 5000000

abbrev pub max_gas_limit : ℕ
max_gas_limit = 30000000

abbrev pub max_timestamp_drift : ℕ
max_timestamp_drift = 15

abbrev pub oldest_timestamp : ℕ
oldest_timestamp = 1000000000

abbrev pub min_difficulty : ℤ
min_difficulty = pos 1

unfoldable pub max_difficulty : ℤ
max_difficulty = pos 115792089237316195423570985008687907853269984665640564039457584007913129639935

-- The values of the enums, and any other text.
pub data BlockType : Type 0 where
  genesis regular uncle checkpoint merge_mined other : BlockType

pub data NetworkType : Type 0 where
  mainnet testnet regtest devnet other : NetworkType

pub data ConsensusType : Type 0 where
  proof_of_stake proof_of_work hybrid other : ConsensusType

-- A `none` is a missing field or an empty text.
pub record Fields : Type 0 where
  pub block_type : Option BlockType
  pub network : Option NetworkType
  pub status : Option BlockStatus
  pub consensus_type : Option ConsensusType
  pub slot : Option ℤ
  pub epoch : Option ℤ
  pub proposer_index : Option ℤ
  pub difficulty : Option ℤ
  -- 0 is a missing or empty root or hash
  pub state_root : Key
  pub transactions_root : Key
  pub receipts_root : Key
  pub mix_hash : Key
  pub block_hash : Key
  -- 0 is a missing or empty hash
  pub parent_hash : Key
  pub height : ℕ
  pub gas_limit : ℕ
  pub gas_used : ℕ
  pub base_fee_per_gas : ℕ
  pub timestamp : ℕ
  pub transactions : List Tx
  pub transaction_count : ℕ

-- The messages of the validation functions.
pub data BlockError : Type 0 where
  missing_parent_hash malformed_block_hash malformed_parent_hash : BlockError
  gas_used_exceeds_limit base_fee_below_minimum : BlockError
  gas_limit_below_minimum gas_limit_above_maximum : BlockError
  timestamp_in_future timestamp_too_old : BlockError
  count_mismatch missing_tx_hash : BlockError
  parent_of_genesis height_of_genesis missing_gas_limit missing_base_fee : BlockError
  missing_slot missing_epoch missing_proposer_index : BlockError
  missing_block_type missing_network missing_consensus_type : BlockError
  malformed_state_root malformed_transactions_root malformed_receipts_root : BlockError
  malformed_mix_hash invalid_block_type invalid_network invalid_status : BlockError
  invalid_consensus_type negative_field difficulty_below difficulty_above : BlockError

abbrev pub error_if : Bool → BlockError → List BlockError
error_if b e = if b then e ∷ [] else []

abbrev pub missing_if_none {ℓ} : {A : Type ℓ} → Option A → BlockError → List BlockError
missing_if_none none e = e ∷ []
missing_if_none (some _) e = []

-- `validate_required_fields`, of the view for creation.
unfoldable pub validate_required_fields : Fields → List BlockError
validate_required_fields b =
    error_if (b.parent_hash == 0) missing_parent_hash
    ++ missing_if_none b.slot missing_slot
    ++ missing_if_none b.epoch missing_epoch
    ++ missing_if_none b.proposer_index missing_proposer_index
    ++ missing_if_none b.block_type missing_block_type
    ++ missing_if_none b.network missing_network
    ++ missing_if_none b.consensus_type missing_consensus_type

-- `check_format`
unfoldable pub check_format : (Key → Bool) → Key → BlockError → List BlockError
check_format valid value e = error_if (not (value == 0) && not (valid value)) e

unfoldable pub check_block_type : Option BlockType → List BlockError
check_block_type (some BlockType.other) = invalid_block_type ∷ []
check_block_type _ = []

unfoldable pub check_network : Option NetworkType → List BlockError
check_network (some NetworkType.other) = invalid_network ∷ []
check_network _ = []

unfoldable pub check_status : Option BlockStatus → List BlockError
check_status (some BlockStatus.unknown) = invalid_status ∷ []
check_status _ = []

unfoldable pub check_consensus_type : Option ConsensusType → List BlockError
check_consensus_type (some ConsensusType.other) = invalid_consensus_type ∷ []
check_consensus_type _ = []

-- `validate_field_formats`
unfoldable pub validate_field_formats : (Key → Bool) → Fields → List BlockError
validate_field_formats valid b =
    check_format valid b.block_hash malformed_block_hash
    ++ check_format valid b.parent_hash malformed_parent_hash
    ++ check_format valid b.state_root malformed_state_root
    ++ check_format valid b.transactions_root malformed_transactions_root
    ++ check_format valid b.receipts_root malformed_receipts_root
    ++ check_format valid b.mix_hash malformed_mix_hash
    ++ check_block_type b.block_type
    ++ check_network b.network
    ++ check_status b.status
    ++ check_consensus_type b.consensus_type

-- `validate_eip1559_gas_fields`
unfoldable pub validate_eip1559_gas_fields : Fields → List BlockError
validate_eip1559_gas_fields b =
    error_if (ltb b.gas_limit b.gas_used) gas_used_exceeds_limit
    ++ error_if (ltb b.base_fee_per_gas min_base_fee) base_fee_below_minimum
    ++ error_if (ltb b.gas_limit min_gas_limit) gas_limit_below_minimum
    ++ error_if (ltb max_gas_limit b.gas_limit) gas_limit_above_maximum

unfoldable pub check_stake_field : Option ℤ → BlockError → List BlockError
check_stake_field none e = e ∷ []
check_stake_field (some n) e = error_if (ltb_ℤ n (pos 0)) negative_field

unfoldable pub check_stake : Fields → List BlockError
check_stake b =
    check_stake_field b.slot missing_slot
    ++ check_stake_field b.epoch missing_epoch
    ++ check_stake_field b.proposer_index missing_proposer_index

unfoldable pub check_difficulty : Option ℤ → List BlockError
check_difficulty none = []
check_difficulty (some d) =
    error_if (ltb_ℤ d min_difficulty) difficulty_below
    ++ error_if (ltb_ℤ max_difficulty d) difficulty_above

unfoldable pub check_consensus : Option ConsensusType → Fields → List BlockError
check_consensus none b = check_stake b
check_consensus (some ConsensusType.proof_of_stake) b = check_stake b
check_consensus (some ConsensusType.proof_of_work) b = check_difficulty b.difficulty
check_consensus (some ConsensusType.hybrid) b = check_difficulty b.difficulty
check_consensus (some ConsensusType.other) b = []

-- `validate_consensus_fields`, whose default is proof of stake.
unfoldable pub validate_consensus_fields : Fields → List BlockError
validate_consensus_fields b = check_consensus b.consensus_type b

-- `validate_timestamp`
unfoldable pub validate_timestamp : ℕ → Fields → List BlockError
validate_timestamp now b =
    error_if (ltb (now + max_timestamp_drift) b.timestamp) timestamp_in_future
    ++ error_if (ltb 0 b.height && ltb b.timestamp oldest_timestamp) timestamp_too_old

abbrev pub hash_errors : List Tx → List BlockError
hash_errors [] = []
hash_errors (tx ∷ txs) = error_if (tx.tx_hash == 0) missing_tx_hash ++ hash_errors txs

-- `validate_transaction_list`
unfoldable pub validate_transaction_list : Fields → List BlockError
validate_transaction_list b =
    error_if (not (length b.transactions == b.transaction_count)) count_mismatch
    ++ hash_errors b.transactions

-- `validate_block_height_sequence`, with no parent's height.
unfoldable pub validate_block_height_sequence : Fields → List BlockError
validate_block_height_sequence b =
    error_if ((b.height == 0) && not (b.parent_hash == genesis_parent)) parent_of_genesis

unfoldable pub is_genesis : Option BlockType → Bool
is_genesis (some BlockType.genesis) = true
is_genesis _ = false

-- `validate_block_creation_requirements`
unfoldable pub validate_block_creation_requirements : Fields → List BlockError
validate_block_creation_requirements b =
    error_if (b.parent_hash == 0) missing_parent_hash
    ++ error_if (b.gas_limit == 0) missing_gas_limit
    ++ error_if (b.base_fee_per_gas == 0) missing_base_fee
    ++ missing_if_none b.consensus_type missing_consensus_type
    ++ error_if (is_genesis b.block_type && not (b.height == 0)) height_of_genesis
    ++ error_if (is_genesis b.block_type && not (b.parent_hash == genesis_parent)) parent_of_genesis

-- `validate_for_creation`, at a time.
unfoldable pub validate_for_creation : (Key → Bool) → ℕ → Fields → List BlockError
validate_for_creation valid now b =
    validate_required_fields b
    ++ validate_field_formats valid b
    ++ validate_eip1559_gas_fields b
    ++ validate_consensus_fields b
    ++ validate_timestamp now b
    ++ validate_transaction_list b
    ++ validate_block_height_sequence b
    ++ validate_block_creation_requirements b

abbrev pub has_errors : List BlockError → Bool
has_errors [] = false
has_errors (_ ∷ _) = true
