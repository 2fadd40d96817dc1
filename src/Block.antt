-- ===== src/Block.antt =====
-- Blocks as they are stored (src/BachiCoin/lib_blockchain/blockchain_config.py). A consensus block
-- nests its fields in `header` and `body`; the genesis block is flat. A stored block has the flat
-- fields too, filled from the schema's defaults where the creator gave none.
use bachi_coin.Prelude.{ℕ, Bool, Option, none, some, List, []}
use bachi_coin.Dict.{Key}
use bachi_coin.Tx.{Tx}

pub data AttestorStatus : Type 0 where
  awaiting_duty awaiting_inclusion included_success included_late missed orphaned : AttestorStatus

-- An attestation duty. Its identifier is the text "slot-validator_index", which is the pair.
pub record Attestation : Type 0 where
  pub slot : ℕ
  pub epoch : ℕ
  pub validator_index : ℕ
  pub committee_index : ℕ
  pub status : AttestorStatus
  pub target_root : Option Key
  pub target_epoch : Option ℕ

pub data BlockStatus : Type 0 where
  proposed justified finalized invalid orphaned unknown : BlockStatus

pub record Header : Type 0 where
  pub slot : ℕ
  pub epoch : ℕ
  pub proposer_index : ℕ
  pub parent_hash : Key
  pub height : ℕ
  pub gas_limit : ℕ
  pub gas_used : ℕ
  pub base_fee_per_gas : ℕ

pub record Body : Type 0 where
  pub transactions : List Tx
  pub attestations : List Attestation

pub record Block : Type 0 where
  pub block_hash : Key
  -- the flat fields
  pub parent_hash : Option Key
  pub height : ℕ
  pub slot : ℕ
  pub epoch : ℕ
  pub header : Option Header
  pub body : Option Body
  pub status : BlockStatus
  pub state_processed : Bool
  pub is_justified : Bool
  pub is_finalized : Bool

-- `block.get("body", {}).get("transactions", [])`
abbrev pub transactions_of : Block → List Tx
transactions_of b = elim b.body [ none ↦ [] | some body ↦ body.transactions ]

-- `block.get("body", {}).get("attestations", [])`
abbrev pub attestations_of : Block → List Attestation
attestations_of b = elim b.body [ none ↦ [] | some body ↦ body.attestations ]

-- `block.get("header", block).get("height")`
abbrev pub height_of : Block → ℕ
height_of b = elim b.header [ none ↦ b.height | some h ↦ h.height ]

-- `block.get("header", block).get("slot")`
abbrev pub slot_of : Block → ℕ
slot_of b = elim b.header [ none ↦ b.slot | some h ↦ h.slot ]
