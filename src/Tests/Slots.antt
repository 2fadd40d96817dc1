-- ===== src/Tests/Slots.antt =====
-- Slots of a chain that has only its genesis block.
use bachi_coin.Prelude.{
  ℕ, ◌+◌, ◌<◌, ◌↔◌, ◌≡◌, ◌≢◌, refl, true, none, some, [], ◌∷◌, arith, All, inl, length, get_elem?,
  ◌%◌, pos,
}
use bachi_coin.Exec.{ok, err, type_error, assertion_failed}
use bachi_coin.Tx.{Tx}
use bachi_coin.TxCheck.{validate_transaction}
use bachi_coin.TxCheck.Shape.{IsAcceptable, validate_transaction-IsAcceptable, transfer_to_self}
use bachi_coin.Block.{slot_of, BlockStatus}
use bachi_coin.BlockIndex.{get_chain_tip}
use bachi_coin.Fee.{calculate_gas_used, calculate_next_base_fee}
use bachi_coin.Candidate.{root_of_txs}
use bachi_coin.BlockCheck.{
  check_format, check_block_type, check_network, check_status, check_consensus_type,
  validate_consensus_fields, check_consensus, check_stake, check_stake_field, is_genesis, BlockType,
  NetworkType, ConsensusType, Fields, validate_for_creation, validate_required_fields,
  validate_field_formats, validate_eip1559_gas_fields, validate_timestamp,
  validate_transaction_list, validate_block_height_sequence, validate_block_creation_requirements,
}
use bachi_coin.BlockCheck.Creatable.{IsCreatable, validate_for_creation-IsCreatable}
use bachi_coin.Validator.{get_validator, create_genesis_validator_data}
use bachi_coin.Attestor.{assign_duty}
use bachi_coin.Mempool.{get_pending_transactions}
use bachi_coin.Proposer.{assign_proposal_duty, update_proposal_status_after_commit}
use bachi_coin.Proposer.Assigned.{IsAssigned, assign_proposal_duty-IsAssigned}
use bachi_coin.Node.{Node}
use bachi_coin.Candidate.{
  validate_candidate_block, make_candidate, next_base_fee, default_gas_limit,
}
use bachi_coin.Candidate.Built.{pending, after_reading, removed, has_invalid}
use bachi_coin.Consensus.Loop.{run_consensus}
use bachi_coin.Consensus.{ensure_genesis, genesis_block, propose_block_for_slot}
use bachi_coin.Consensus.Stuck.{IsStuck, Halts, run_consensus-Halts}
use bachi_coin.Consensus.Failed.{IsReady, propose_block_for_slot-IsStuck}
use bachi_coin.Consensus.Offered.{IsPayload}
use bachi_coin.Consensus.Advances.{Advances, propose_block_for_slot-Advances}
use bachi_coin.Consensus.Overfull.{propose_block_for_slot-overfull}
use bachi_coin.Tests.Nodes.{
  tx_formats, host, host-IsHashing, payment_to, payment-IsAcceptable, proposals0, registry0,
  node_with, proposals0-IsAssigned, genesis-IsAlive, validator0-IsStaked, begun, waits,
}

abbrev payment : Tx
payment = payment_to 101 21000

payload : IsPayload host (pending host (node_with payment))
unfolding get_pending_transactions calculate_gas_used
payload = record {
  acceptable = (payment-IsAcceptable 21000, tt);
  hashed = (λ e. omega (arith, e), tt);
  room = omega arith;
}

chosen :
    get_elem? {A = ℕ} (0 ∷ []) ((slot_of (genesis_block 9) + 1) % length {A = ℕ} (0 ∷ [])) ≡ some 0
unfolding genesis_block
chosen = refl

propose_block_for_slot-Advances_example :
    Advances host (slot_of (genesis_block 9) + 1) (genesis_block 9) (
      propose_block_for_slot host 2000000000
        (slot_of (genesis_block 9) + 1)
        0
        (0 ∷ [])
        (node_with payment))
propose_block_for_slot-Advances_example =
    propose_block_for_slot-Advances host 2000000000 0 0 [] 0 (genesis_block 9) (node_with payment)
      host-IsHashing (omega arith) (genesis-IsAlive payment) chosen validator0-IsStaked payload
      (inl (waits payment))

-- A payment of an account to itself waits.
abbrev to_self : Tx
to_self = payment_to 100 21000

self_fails : validate_transaction tx_formats to_self ≢ []
self_fails = transfer_to_self tx_formats to_self refl refl

self_is_invalid : has_invalid tx_formats (pending host (node_with to_self)) ≡ true
unfolding get_pending_transactions validate_transaction
self_is_invalid = refl

self-IsReady :
    IsReady 0 (slot_of (genesis_block 9) + 1) (genesis_block 9) 1000000000 (node_with to_self)
unfolding ensure_genesis genesis_block get_chain_tip get_validator next_base_fee
    calculate_next_base_fee
self-IsReady = record {
  consistent = proposals0-IsAssigned;
  known = refl;
  free = refl;
  tip = refl;
  base_fee = refl;
}

propose_block_for_slot-IsStuck_example :
    let out =
      propose_block_for_slot host 2000000000
        (slot_of (genesis_block 9) + 1)
        0
        (0 ∷ [])
        (node_with to_self) in
    (out.0 ≡ err type_error) × IsStuck out.1
propose_block_for_slot-IsStuck_example =
    propose_block_for_slot-IsStuck host 2000000000 0 0 [] 0 (genesis_block 9) 1000000000
      (node_with to_self) (begun to_self) chosen self-IsReady (waits to_self) self_is_invalid

-- A payment that used more gas than a block may.
abbrev heavy : Tx
heavy = payment_to 101 15000001

heavy_gas : default_gas_limit < calculate_gas_used (pending host (node_with heavy))
unfolding get_pending_transactions calculate_gas_used
heavy_gas = omega arith

heavy-IsAcceptable : All (λ tx. IsAcceptable tx_formats tx) (pending host (node_with heavy))
unfolding get_pending_transactions
heavy-IsAcceptable = (payment-IsAcceptable 15000001, tt)

propose_block_for_slot-overfull_example :
    let out =
      propose_block_for_slot host 2000000000
        (slot_of (genesis_block 9) + 1)
        0
        (0 ∷ [])
        (node_with heavy) in
    (out.0 ≡ err assertion_failed)
    × (out.1.pool
        ≡ removed (pending host (node_with heavy)) (after_reading host (node_with heavy)).pool)
    × IsStuck out.1
propose_block_for_slot-overfull_example =
    propose_block_for_slot-overfull host 2000000000 0 0 [] 0 (genesis_block 9) (node_with heavy)
      (genesis-IsAlive heavy) (begun heavy) chosen validator0-IsStaked heavy-IsAcceptable heavy_gas

-- A node whose first slot was skipped.
abbrev after_skip : Node
after_skip = record (node_with payment) {
  proposals = (assign_proposal_duty 1 0 registry0 proposals0).1;
}

after_skip-IsStuck : IsStuck after_skip
unfolding ensure_genesis genesis_block get_chain_tip assign_proposal_duty
after_skip-IsStuck = record { tip = genesis_block 9; stored = refl; begun = cc; taken = refl }

run_consensus-Halts_example : Halts (run_consensus host 2000000000 (2000000001 ∷ []) after_skip)
run_consensus-Halts_example =
    run_consensus-Halts host 2000000000 2000000001 [] after_skip after_skip-IsStuck

assign_proposal_duty-IsAssigned_example :
    IsAssigned (assign_proposal_duty 1 0 registry0 proposals0).1
assign_proposal_duty-IsAssigned_example =
    assign_proposal_duty-IsAssigned 1 0 registry0 proposals0 proposals0-IsAssigned

validate_transaction-IsAcceptable_example :
    (validate_transaction tx_formats payment ≡ []) ↔ IsAcceptable tx_formats payment
validate_transaction-IsAcceptable_example = validate_transaction-IsAcceptable tx_formats payment

-- The payment passes.
passes : validate_transaction tx_formats payment ≡ []
unfolding validate_transaction
passes = refl

abbrev fields0 : Fields
fields0 = record {
  block_type = some BlockType.regular;
  network = some NetworkType.testnet;
  status = some BlockStatus.proposed;
  consensus_type = some ConsensusType.proof_of_stake;
  slot = some (pos 1);
  epoch = some (pos 0);
  proposer_index = some (pos 0);
  difficulty = none;
  state_root = 2;
  transactions_root = 70;
  receipts_root = 2;
  mix_hash = 0;
  block_hash = 11;
  parent_hash = 9;
  height = 1;
  gas_limit = 15000000;
  gas_used = 21000;
  base_fee_per_gas = 1000000000;
  timestamp = 2000000000;
  transactions = payment ∷ [];
  transaction_count = 1;
}

validate_for_creation-IsCreatable_example :
    (validate_for_creation (λ _. true) 2000000000 fields0 ≡ [])
    ↔ IsCreatable (λ _. true) 2000000000 fields0
validate_for_creation-IsCreatable_example =
    validate_for_creation-IsCreatable (λ _. true) 2000000000 fields0

-- The first block is stored under its hash.
commits : (propose_block_for_slot host 2000000000 1 0 (0 ∷ []) (node_with payment)).0 ≡ ok (some 11)
unfolding propose_block_for_slot root_of_txs check_format check_block_type check_network
    check_status check_consensus_type validate_consensus_fields check_consensus check_stake
    check_stake_field is_genesis assign_duty get_pending_transactions validate_transaction
    validate_for_creation validate_required_fields validate_field_formats
    validate_eip1559_gas_fields validate_timestamp validate_transaction_list
    validate_block_height_sequence validate_block_creation_requirements ensure_genesis get_chain_tip
    next_base_fee calculate_next_base_fee validate_candidate_block make_candidate
    create_genesis_validator_data calculate_gas_used update_proposal_status_after_commit
commits = refl
