-- ===== src/Tests/Nodes.antt =====
-- A chain with its genesis block, one validator and one duty to attest, over a pool with one
-- transaction.
use bachi_coin.Prelude.{ℕ, ◌+◌, ◌≡◌, ◌≢◌, refl, true, none, some, [], ◌∷◌, arith, pos}
use bachi_coin.Dict.{Key}
use bachi_coin.Tx.{Tx, TxType}
use bachi_coin.TxCheck.{TxFormats}
use bachi_coin.TxCheck.Shape.{IsAcceptable}
use bachi_coin.Block.{slot_of}
use bachi_coin.BlockIndex.{get_chain_tip}
use bachi_coin.Validator.{Registry, Validator, get_validator, create_genesis_validator_data}
use bachi_coin.Attestor.{Duties, assign_duty}
use bachi_coin.Mempool.{Pool, MempoolStatus, get_pending_transactions}
use bachi_coin.Proposer.{Proposals, load_proposal}
use bachi_coin.Proposer.Assigned.{IsAssigned}
use bachi_coin.Node.{Host, Node}
use bachi_coin.Candidate.Built.{pending}
use bachi_coin.Consensus.{ensure_genesis, genesis_block, waiting_attestations}
use bachi_coin.Consensus.Progress.{IsStaked}
use bachi_coin.Consensus.Offered.{IsHashing}
use bachi_coin.Consensus.Advances.{IsAlive}

abbrev pub tx_formats : TxFormats
tx_formats = record {
  is_valid_tx_hash = λ _. true;
  is_valid_address = λ _. true;
  is_valid_signature = λ _. true;
}

abbrev pub host : Host
host = record {
  tx_formats = tx_formats;
  score = λ _. pos 0;
  is_valid_block_hash = λ _. true;
  generate_block_hash = λ now h txs. h.slot + 10;
  calculate_txs_root = λ txs. 70;
}

pub host-IsHashing : IsHashing host
host-IsHashing = record {
  named = λ now h txs. omega arith;
  formed = λ now h txs. refl;
  rooted = λ txs. refl;
  zeros = refl;
}

abbrev pub payment_to : Key → ℕ → Tx
payment_to to gas = record {
  tx_hash = 400;
  tx_type = TxType.transfer;
  from_address = some 100;
  to_address = some to;
  nonce = some 0;
  amount = pos 200;
  total_fee = pos 5;
  max_fee_per_gas = pos 40000000000;
  max_priority_fee_per_gas = pos 2000000000;
  gas_limit = 21000;
  gas_used = some gas;
  signature = some 3;
}

pub payment-IsAcceptable : (gas : ℕ) → IsAcceptable tx_formats (payment_to 101 gas)
payment-IsAcceptable gas = record {
  known = cc;
  shape = (tt, tt, tt, tt, λ e. ground (arith, e));
  pays = omega arith;
  tips = omega arith;
  tip_below_max = omega arith;
  has_gas = omega arith;
  has_amount = omega arith;
  hash_format = ground arith;
  from_format = refl;
  to_format = refl;
  signature_format = refl;
}

abbrev pub pool_with : Tx → Pool
pool_with tx = record {
  tx_queue = record { tx = tx; arrival_time = 5; status = MempoolStatus.pending } ∷ [];
  tx_lookup = (tx.tx_hash, 0) ∷ [];
  fee_stats = record { max_fees = []; priority_fees = [] };
  storage = none;
}

abbrev pub proposals0 : Proposals
proposals0 = record {
  records = [];
  duties_by_slot = [];
  duties_by_epoch = [];
  total_duties_assigned = 0;
  last_assigned_slot = none;
}

abbrev pub validator0 : Validator
validator0 = create_genesis_validator_data 0 70 71 20

abbrev pub registry0 : Registry
registry0 = record {
  records = (0, validator0) ∷ [];
  index = record {
    validators = (0, validator0) ∷ [];
    by_pubkey = (70, 0) ∷ [];
    by_user = (20, 0) ∷ [];
    total_validators = 1;
  };
}

abbrev pub duties0 : Duties
duties0 =
    (assign_duty 1 0 0 (
      [],
      record {
        records = [];
        duties_by_epoch = [];
        duties_by_validator = [];
        total_duties_assigned = 0;
        last_assigned_epoch = none;
      },
    )).1

abbrev pub node_with : Tx → Node
node_with tx = record {
  proposals = proposals0;
  pool = pool_with tx;
  blocks =
      ensure_genesis 9
        (record { records = []; index = []; chain_tip_hash = none; chain_height = none });
  registry = registry0;
  duties = duties0;
  finality = record {
    checkpoints = [];
    indexed = [];
    justified_epoch = none;
    finalized_epoch = none;
  };
}

pub proposals0-IsAssigned : IsAssigned proposals0
unfolding load_proposal
proposals0-IsAssigned = record { matches = λ slot. tt; counted = refl }

pub genesis-IsAlive : (tx : Tx) → IsAlive host (genesis_block 9) (node_with tx)
unfolding ensure_genesis genesis_block get_chain_tip
genesis-IsAlive tx = record {
  stored = refl;
  header = tt;
  named = omega arith;
  formed = refl;
  consistent = proposals0-IsAssigned;
  fresh = λ slot lt. refl;
}

pub validator0-IsStaked : IsStaked 0 registry0
unfolding get_validator create_genesis_validator_data
validator0-IsStaked = record {
  validator = validator0;
  known = refl;
  ongoing = refl;
  stake = omega arith;
}

pub pending_of : (tx : Tx) → pending host (node_with tx) ≡ tx ∷ []
unfolding get_pending_transactions
pending_of tx = refl

pub begun : (tx : Tx) → (node_with tx).blocks.chain_height ≢ none
unfolding ensure_genesis
begun tx = cc

pub waits : (tx : Tx) → waiting_attestations 0 (node_with tx).duties ≢ []
unfolding waiting_attestations assign_duty
waits tx = cc

pub first_slot : slot_of (genesis_block 9) ≡ 0
unfolding genesis_block
first_slot = refl
