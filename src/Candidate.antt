-- ===== src/Candidate.antt =====
-- Candidate blocks (build_candidate_block of src/BachiCoin/lib_proposer/proposer_index_service.py
-- with validate_candidate_block of proposer_validation.py), and how the block service prepares them
-- (prepare_block_for_storage_and_index of src/BachiCoin/lib_blockchain/blockchain_helper.py). A
-- candidate has all fields of the view for creation.
pub mod Built
use bachi_coin.Prelude.{
  ℕ, ◌+◌, ◌/◌, Bool, true, false, not, Option, none, some, List, [], ◌∷◌, ◌++◌, map, length, ltb,
  leb, ◌==◌, if◌then◌else◌, pos,
}
use bachi_coin.Dict.{Key}
use bachi_coin.Exec.{
  Result, ok, err, Exec, pure, gets, or_raise, modify, for_each, ◌>>=◌, ◌>>◌, assertion_failed,
  zero_division,
}
use bachi_coin.Tx.{Tx}
use bachi_coin.TxCheck.{TxFormats, TxError, validate_transaction}
use bachi_coin.Block.{Block, BlockStatus, Header, Body}
use bachi_coin.BlockIndex.{BlockStore, get_chain_tip, create_block_with_index}
use bachi_coin.BlockCheck.{
  Fields, BlockType, NetworkType, ConsensusType, has_errors, validate_for_creation,
}
use bachi_coin.Chain.{genesis_parent}
use bachi_coin.Fee.{calculate_next_base_fee, calculate_gas_used, min_base_fee}
use bachi_coin.Mempool.{Entry, Pool, get_pending_transactions, remove_transaction}
use bachi_coin.Validator.{Registry, Validator, ValidatorStatus, get_validator, min_deposit_amount}
use bachi_coin.Attestor.{slots_per_epoch}
use bachi_coin.Proposer.{ProposerStatus, awaiting_duty, Proposal, get_proposal_by_slot}
use bachi_coin.Node.{Host, Node, on_pool, on_blocks}

abbrev pub default_gas_limit : ℕ
default_gas_limit = 15000000

pub record Candidate : Type 0 where
  pub header : Header
  pub body : Body

-- The messages of `validate_candidate_block`.
pub data CandidateError : Type 0 where
  validator_not_found not_active insufficient_stake : CandidateError
  no_chain_tip invalid_slot invalid_transaction : CandidateError

abbrev pub error_if : Bool → CandidateError → List CandidateError
error_if b e = if b then e ∷ [] else []

abbrev pub is_ongoing : ValidatorStatus → Bool
is_ongoing ValidatorStatus.active_ongoing = true
is_ongoing _ = false

abbrev pub is_valid_tx : List TxError → Bool
is_valid_tx [] = true
is_valid_tx (_ ∷ _) = false

unfoldable pub tx_errors : TxFormats → List Tx → List CandidateError
tx_errors f [] = []
tx_errors f (tx ∷ txs) =
    error_if (not (is_valid_tx (validate_transaction f tx))) invalid_transaction ++ tx_errors f txs

-- `block_slot <= parent_block.get("header", {}).get("slot", -1)`
abbrev pub is_after : ℕ → Option Header → Bool
is_after slot none = true
is_after slot (some h) = ltb h.slot slot

unfoldable pub after_parent : TxFormats → Candidate → Option Block → List CandidateError
unfolding tx_errors
after_parent f c none = no_chain_tip ∷ []
after_parent f c (some parent) =
    error_if (not (is_after c.header.slot parent.header)) invalid_slot
    ++ tx_errors f c.body.transactions

unfoldable pub after_validator :
    TxFormats → Candidate → Option Validator → Option Block → List CandidateError
unfolding after_parent
after_validator f c none tip = validator_not_found ∷ []
after_validator f c (some v) tip =
    error_if (not (is_ongoing v.status)) not_active
    ++ error_if (ltb v.effective_balance min_deposit_amount) insufficient_stake
    ++ after_parent f c tip

-- `validate_candidate_block`
unfoldable pub validate_candidate_block :
    TxFormats → Candidate → Registry → BlockStore → List CandidateError
unfolding after_validator
validate_candidate_block f c r blocks =
    after_validator f c (get_validator c.header.proposer_index r) (get_chain_tip blocks)

-- The gas limit and the base fee of the parent's header, or the defaults.
abbrev pub gas_limit_of : Option Header → ℕ
gas_limit_of none = default_gas_limit
gas_limit_of (some h) = h.gas_limit

unfoldable pub next_base_fee : Option Header → Option ℕ
next_base_fee none = calculate_next_base_fee 0 default_gas_limit min_base_fee
next_base_fee (some h) = calculate_next_base_fee h.gas_used h.gas_limit h.base_fee_per_gas

-- The dict of the candidate; its gas used is missing until it is prepared. The height is that of
-- the parent's flat field.
unfoldable pub make_candidate : ℕ → ℕ → Block → ℕ → List Tx → Candidate
make_candidate slot validator parent base_fee txs = record {
  header = record {
    slot = slot;
    epoch = slot / slots_per_epoch;
    proposer_index = validator;
    parent_hash = parent.block_hash;
    height = parent.height + 1;
    gas_limit = gas_limit_of parent.header;
    gas_used = 0;
    base_fee_per_gas = base_fee;
  };
  body = record { transactions = txs; attestations = [] };
}

-- `remove_transaction`, of a transaction with a hash.
unfoldable pub remove_hashed : Tx → Pool → Pool
unfolding remove_transaction
remove_hashed tx s = if tx.tx_hash == 0 then s else (remove_transaction tx.tx_hash s).1

-- The loop over the pending transactions.
unfoldable pub remove_pending : List Tx → Exec Node (Unit {0})
unfolding remove_hashed
remove_pending txs = for_each txs (λ tx n. (ok tt, record n { pool = remove_hashed tx n.pool }))

-- After the validation: a candidate with errors is dropped.
unfoldable pub settle : Candidate → List CandidateError → Exec Node (Option Candidate)
unfolding remove_pending
settle c (_ ∷ _) = pure none
settle c [] = remove_pending c.body.transactions >>= λ _. pure (some c)

module _ (host : Host) where
  unfoldable pub take_valid : Candidate → Exec Node (Option Candidate)
  unfolding settle
  take_valid c n = settle c (validate_candidate_block host.tx_formats c n.registry n.blocks) n

  unfoldable pub build_on : ℕ → Proposal → Block → Exec Node (Option Candidate)
  unfolding take_valid
  build_on slot p parent = do
    entries ← on_pool (get_pending_transactions host.score none)
    base_fee ← or_raise (next_base_fee parent.header) zero_division
    take_valid (make_candidate slot p.validator_index parent base_fee (map (λ e. e.tx) entries))

  unfoldable pub build_for : ℕ → Proposal → ProposerStatus → Exec Node (Option Candidate)
  unfolding build_on
  build_for slot p ProposerStatus.awaiting_duty = do
    n ← gets (λ n. n)
    parent ← or_raise (get_chain_tip n.blocks) assertion_failed
    build_on slot p parent
  build_for slot p _ = pure none

  unfoldable pub build_at : ℕ → Option Proposal → Exec Node (Option Candidate)
  unfolding build_for
  build_at slot none = pure none
  build_at slot (some p) = build_for slot p p.status

  -- `build_candidate_block`
  unfoldable pub build_candidate_block : ℕ → Exec Node (Option Candidate)
  unfolding build_at
  build_candidate_block slot n = build_at slot (get_proposal_by_slot slot n.proposals) n

  -- `apply_block_defaults` and `populate_jit_block_fields` of a candidate: the gas used is filled
  -- in, and the flat fields have the schema's defaults.
  unfoldable pub prepare_candidate : ℕ → Candidate → Block
  prepare_candidate now c =
      let header = record c.header { gas_used = calculate_gas_used c.body.transactions } in
      record {
        block_hash = host.generate_block_hash now header c.body.transactions;
        parent_hash = none;
        height = 0;
        slot = 0;
        epoch = 0;
        header = some header;
        body = some c.body;
        status = BlockStatus.proposed;
        state_processed = false;
        is_justified = false;
        is_finalized = false;
      }

  -- The root that `populate_jit_block_fields` fills in: the empty one, of zeros, where there are no
  -- transactions.
  unfoldable pub root_of_txs : List Tx → Key
  root_of_txs [] = genesis_parent
  root_of_txs (tx ∷ txs) = host.calculate_txs_root (tx ∷ txs)

  -- What the validation finds in a prepared candidate, whose timestamp is the time of its making.
  unfoldable pub candidate_fields : ℕ → Candidate → Fields
  candidate_fields now c = record {
    block_type = some BlockType.regular;
    network = some NetworkType.testnet;
    status = some BlockStatus.proposed;
    consensus_type = some ConsensusType.proof_of_stake;
    slot = some (pos c.header.slot);
    epoch = some (pos c.header.epoch);
    proposer_index = some (pos c.header.proposer_index);
    difficulty = none;
    state_root = genesis_parent;
    transactions_root = root_of_txs c.body.transactions;
    receipts_root = genesis_parent;
    mix_hash = 0;
    block_hash =
        host.generate_block_hash now
          (record c.header { gas_used = calculate_gas_used c.body.transactions })
          c.body.transactions;
    parent_hash = c.header.parent_hash;
    height = c.header.height;
    gas_limit = c.header.gas_limit;
    gas_used = calculate_gas_used c.body.transactions;
    base_fee_per_gas = c.header.base_fee_per_gas;
    timestamp = now;
    transactions = c.body.transactions;
    transaction_count = length c.body.transactions;
  }

  -- `create_block_with_index` of a candidate: the rules for a new block are asserted.
  unfoldable pub create_candidate : ℕ → Candidate → Exec BlockStore Key
  unfolding prepare_candidate candidate_fields create_block_with_index
  create_candidate now c s =
      if has_errors (validate_for_creation host.is_valid_block_hash now (candidate_fields now c))
      then (err assertion_failed, s)
      else (let (hash, s') = create_block_with_index (prepare_candidate now c) s in (ok hash, s'))
