-- ===== src/Consensus.antt =====
-- The proposal of a block for a slot (initialize_chain_if_needed and propose_block_for_slot of
-- src/BachiCoin/lib_consensus/consensus.py) over the services of a node. The clock's reading is an
-- argument.
pub mod Loop
pub mod Commits
pub mod Stuck
pub mod Failed
pub mod Progress
pub mod Offered
pub mod Advances
pub mod Overfull
use bachi_coin.Prelude.{
  ℕ, ◌+◌, ◌-◌, ◌*◌, ◌/◌, ◌%◌, Bool, true, false, not, ◌&&◌, Option, none, some, List, [], ◌∷◌,
  length, keep, take, get_elem?, ◌==◌, if◌then◌else◌,
}
use bachi_coin.Dict.{Key, get, put}
use bachi_coin.Exec.{
  Result, ok, err, Exec, pure, raise, gets, modify, ensure, or_raise, for_each, ◌>>=◌, ◌>>◌,
  assertion_failed, type_error, key_error,
}
use bachi_coin.Block.{
  Block, BlockStatus, Header, Body, Attestation, AttestorStatus, attestations_of, transactions_of,
  slot_of,
}
use bachi_coin.Chain.{genesis_parent}
use bachi_coin.BlockIndex.{
  BlockStore, create_block_with_index, get_chain_tip, set_chain_tip, get_blocks_by_slot_range,
}
use bachi_coin.Fee.{min_base_fee}
use bachi_coin.Validator.{get_active_validators}
use bachi_coin.Attestor.{
  slots_per_epoch, Duties, get_attestations_for_epoch, assign_attestation_duties_for_epoch,
  update_attestation_status,
}
use bachi_coin.Proposer.{
  ProposerStatus, proposal_missed, Proposal, Proposals, assign_proposal_duty, get_proposal_by_slot,
  update_proposal_status, update_proposal_status_after_commit,
}
use bachi_coin.Finalizer.{Checkpoint, Finality, process_epoch_finality}
use bachi_coin.Node.{Host, Node, on_proposals, on_blocks, on_duties, on_world}
use bachi_coin.Candidate.{Candidate, default_gas_limit, build_candidate_block, create_candidate}

-- `get_block`, which asserts a hash.
abbrev pub get_block : Key → Exec BlockStore (Option Block)
get_block hash s = if hash == 0 then (err assertion_failed, s) else (ok (get hash s.records), s)

-- The header whose fields the hash of genesis covers.
abbrev pub genesis_header : Header
genesis_header = record {
  slot = 0;
  epoch = 0;
  proposer_index = 0;
  parent_hash = genesis_parent;
  height = 0;
  gas_limit = default_gas_limit;
  gas_used = 0;
  base_fee_per_gas = min_base_fee;
}

-- `prepare_genesis_block_data`, which is flat, prepared. It passes the rules for a new block.
unfoldable pub genesis_block : Key → Block
genesis_block hash = record {
  block_hash = hash;
  parent_hash = some genesis_parent;
  height = 0;
  slot = 0;
  epoch = 0;
  header = none;
  body = none;
  status = BlockStatus.finalized;
  state_processed = false;
  is_justified = false;
  is_finalized = false;
}

unfoldable pub create_genesis : Key → BlockStore → BlockStore
unfolding genesis_block create_block_with_index set_chain_tip
create_genesis hash s =
    let (stored, s') = create_block_with_index (genesis_block hash) s in set_chain_tip stored 0 s'

unfoldable pub ensure_genesis : Key → BlockStore → BlockStore
unfolding create_genesis
ensure_genesis hash s = elim s.chain_height [ none ↦ create_genesis hash s | some _ ↦ s ]

abbrev pub is_waiting : AttestorStatus → Bool
is_waiting AttestorStatus.awaiting_duty = true
is_waiting _ = false

-- `get_attestations_for_epoch` with the status of a waiting duty.
unfoldable pub waiting_attestations : ℕ → Duties → List Attestation
unfolding get_attestations_for_epoch
waiting_attestations epoch d = keep (λ a. is_waiting a.status) (get_attestations_for_epoch epoch d)

abbrev pub with_attestations : List Attestation → Candidate → Candidate
with_attestations attestations c = record {
  header = c.header;
  body = record { transactions = c.body.transactions; attestations = attestations };
}

-- `final_proposal['status'] == success`, which is asserted.
abbrev pub assert_success : Option Proposal → Exec Node (Unit {0})
assert_success none = raise type_error
assert_success (some p) = elim p.status [
  | ProposerStatus.proposal_success ↦ pure tt
  | _ ↦ raise assertion_failed
]

-- `update_proposal_status_after_commit` of the stored block.
abbrev pub mark_stored : Option Block → Exec Node (Unit {0})
mark_stored none = raise type_error
mark_stored (some b) =
    on_proposals (λ _ s. let (_, s') = update_proposal_status_after_commit b s in (ok tt, s'))

-- The branch of a skipped slot.
unfoldable pub mark_missed : ℕ × ℕ → Exec Node (Option Key)
unfolding update_proposal_status
mark_missed id n = (
  ok none,
  record n { proposals = (update_proposal_status id proposal_missed (λ p. p) n.proposals).1 },
)

-- The assertion on the duty, after it is marked.
unfoldable pub confirm : ℕ → Key → Exec Node (Option Key)
unfolding get_proposal_by_slot
confirm slot hash n =
    (assert_success (get_proposal_by_slot slot n.proposals) >>= λ _. pure (some hash)) n

unfoldable pub mark_and_confirm : ℕ → Key → Option Block → Exec Node (Option Key)
unfolding confirm
mark_and_confirm slot hash stored = mark_stored stored >>= λ _. confirm slot hash

unfoldable pub settle_tip : ℕ → ℕ → Key → Exec Node (Option Key)
unfolding set_chain_tip mark_and_confirm
settle_tip slot height hash = do
  on_blocks (modify (set_chain_tip hash height))
  on_blocks (get_block hash) >>= mark_and_confirm slot hash

module _ (host : Host) where
  -- `initialize_chain_if_needed`
  unfoldable pub initialize_chain_if_needed : ℕ → Exec Node Block
  unfolding ensure_genesis
  initialize_chain_if_needed now = do
    on_blocks (modify (ensure_genesis (host.generate_block_hash now genesis_header [])))
    n ← gets (λ n. n)
    or_raise (get_chain_tip n.blocks) assertion_failed

  -- `propose_block_for_slot` from the creation of the block on.
  unfoldable pub commit : ℕ → ℕ → Candidate → Exec Node (Option Key)
  unfolding create_candidate settle_tip
  commit now slot c = on_blocks (create_candidate host now c) >>= settle_tip slot c.header.height

  -- The slot is skipped if there is neither a transaction nor a waiting attestation; with waiting
  -- attestations and no candidate the subscript of `None` raises.
  unfoldable pub commit_or_skip :
      ℕ → ℕ → ℕ × ℕ → ℕ → Option Candidate → List Attestation → Exec Node (Option Key)
  unfolding commit mark_missed
  commit_or_skip now slot id count (some c) [] =
      if length c.body.transactions == 0
      then mark_missed id
      else commit now slot (with_attestations [] c)
  commit_or_skip now slot id count (some c) (a ∷ as') =
      commit now slot (with_attestations (take count (a ∷ as')) c)
  commit_or_skip now slot id count none [] = mark_missed id
  commit_or_skip now slot id count none (a ∷ as') = raise type_error

  unfoldable pub with_waiting : ℕ → ℕ → ℕ → ℕ → ℕ × ℕ → Option Candidate → Exec Node (Option Key)
  unfolding waiting_attestations commit_or_skip
  with_waiting now slot epoch count id candidate n =
      commit_or_skip now slot id count candidate (waiting_attestations epoch n.duties) n

  -- From the building of the candidate on.
  unfoldable pub propose_assigned : ℕ → ℕ → ℕ → ℕ → ℕ × ℕ → Exec Node (Option Key)
  unfolding build_candidate_block with_waiting
  propose_assigned now slot epoch count id =
      build_candidate_block host slot >>= with_waiting now slot epoch count id

  unfoldable pub propose_by : ℕ → ℕ → ℕ → ℕ → ℕ → Exec Node (Option Key)
  unfolding assign_proposal_duty propose_assigned
  propose_by now slot epoch count validator =
      on_proposals (assign_proposal_duty slot validator) >>= propose_assigned now slot epoch count

  -- `propose_block_for_slot`
  unfoldable pub propose_block_for_slot : ℕ → ℕ → ℕ → List ℕ → Exec Node (Option Key)
  unfolding propose_by
  propose_block_for_slot now slot epoch [] = pure none
  propose_block_for_slot now slot epoch (v ∷ vs) =
      or_raise (get_elem? (v ∷ vs) (slot % length (v ∷ vs))) key_error >>= λ validator.
      propose_by now slot epoch (length (v ∷ vs)) validator
