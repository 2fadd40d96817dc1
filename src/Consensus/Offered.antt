-- ===== src/Consensus/Offered.antt =====
-- The candidate that a sound payload brings, and its way to the commit.
use bachi_coin.Prelude.{
  ℕ, zero, suc, ◌+◌, ◌≤◌, ◌≡◌, ◌≢◌, ◌⊎◌, refl, sym, ap, ◌∙◌, true, false, Option, none, some, List,
  [], ◌∷◌, arith, length, take, All, ◌==◌, if◌then◌else◌, inl, inr,
}
use bachi_coin.Exec.{ok, bind_ok}
use bachi_coin.Tx.{Tx}
use bachi_coin.TxCheck.Shape.{IsAcceptable}
use bachi_coin.Block.{Block, Header, Attestation, slot_of}
use bachi_coin.BlockCheck.{validate_for_creation, oldest_timestamp}
use bachi_coin.BlockCheck.Creatable.{IsCreatable, validate_for_creation-IsCreatable}
use bachi_coin.Chain.{genesis_parent}
use bachi_coin.Fee.{calculate_gas_used, min_base_fee}
use bachi_coin.Proposer.{assign_proposal_duty, create_proposal_data, id_of}
use bachi_coin.Node.{Host, Node, on_proposals}
use bachi_coin.Candidate.{
  Candidate, default_gas_limit, gas_limit_of, make_candidate, candidate_fields, root_of_txs,
  build_candidate_block,
}
use bachi_coin.Candidate.Built.{pending, after_reading, removed, build_candidate_block-keeps}
use bachi_coin.Consensus.{
  waiting_attestations, with_attestations, mark_missed, commit, commit_or_skip, with_waiting,
  propose_assigned, propose_by,
}
use bachi_coin.Consensus.Progress.{IsHeader, IsStaked, candidate-nil}
use bachi_coin.Consensus.Failed.{IsReady, assigned, duty_of, assign_ready}

-- What the hash library gives: a text that is not empty, of the format of a hash, which 64 zeros
-- have too.
pub record IsHashing (host : Host) : Type 0 where
  pub named : (now : ℕ) (h : Header) (txs : List Tx) → host.generate_block_hash now h txs ≢ 0
  pub formed :
      (now : ℕ) (h : Header) (txs : List Tx)
      → host.is_valid_block_hash (host.generate_block_hash now h txs) ≡ true
  pub rooted : (txs : List Tx) → host.is_valid_block_hash (host.calculate_txs_root txs) ≡ true
  pub zeros : host.is_valid_block_hash genesis_parent ≡ true

-- Transactions that a block has room for.
pub record IsPayload (host : Host) (txs : List Tx) : Type 0 where
  pub acceptable : All (λ tx. IsAcceptable host.tx_formats tx) txs
  pub hashed : All (λ tx. tx.tx_hash ≢ 0) txs
  pub room : calculate_gas_used txs ≤ default_gas_limit

pub gas_limit_kept :
    (parent : Block) → IsHeader parent.header → gas_limit_of parent.header ≡ default_gas_limit
gas_limit_kept parent h = go parent.header h
  where
    go : (x : Option Header) → IsHeader x → gas_limit_of x ≡ default_gas_limit
    go none _ = refl
    go (some x) k = k.0

root_of_txs-formed :
    (host : Host) (hashing : IsHashing host) (txs : List Tx)
    → host.is_valid_block_hash (root_of_txs host txs) ≡ true
unfolding root_of_txs
root_of_txs-formed host hashing [] = hashing.zeros
root_of_txs-formed host hashing (tx ∷ txs) = hashing.rooted (tx ∷ txs)

module _ (host : Host) (hashing : IsHashing host) (now : ℕ) (time : oldest_timestamp ≤ now)
    (slot validator : ℕ) (parent : Block) (fee : ℕ) (header : IsHeader parent.header)
    (floor : min_base_fee ≤ fee) (parent_named : parent.block_hash ≢ 0)
    (parent_formed : host.is_valid_block_hash parent.block_hash ≡ true) (txs : List Tx)
    (payload : IsPayload host txs) (attestations : List Attestation) where
  abbrev pub new_candidate : Candidate
  new_candidate = with_attestations attestations (make_candidate slot validator parent fee txs)

  pub new_candidate-IsCreatable :
      IsCreatable host.is_valid_block_hash now (candidate_fields host now new_candidate)
  unfolding make_candidate candidate_fields
  new_candidate-IsCreatable = record {
    hash_format = inr (hashing.formed now _ txs);
    state_format = inr hashing.zeros;
    transactions_format = inr (root_of_txs-formed host hashing txs);
    receipts_format = inr hashing.zeros;
    mix_format = inl refl;
    slot_given = tt;
    epoch_given = tt;
    proposer_given = tt;
    values = record {
      block_type_given = tt;
      block_type_known = λ e. cc;
      network_given = tt;
      network_known = λ e. cc;
      status_known = λ e. cc;
    };
    consensus = (omega arith, omega arith, omega arith);
    has_parent = parent_named;
    parent_format = parent_formed;
    gas_fits = rw (gas_limit_kept parent header) payload.room;
    fee_bound = floor;
    gas_above = rw (gas_limit_kept parent header) (omega arith);
    gas_below = rw (gas_limit_kept parent header) (omega arith);
    not_ahead = omega arith;
    not_old = λ _. time;
    counted = refl;
    hashed = payload.hashed;
    first = λ e. absurd (omega arith);
    genesis_height = λ e. cc;
  }

  pub fits :
      validate_for_creation host.is_valid_block_hash now (candidate_fields host now new_candidate)
      ≡ []
  fits =
      (validate_for_creation-IsCreatable host.is_valid_block_hash now
          (candidate_fields host now new_candidate)).1
        new_candidate-IsCreatable

take-nil {ℓ} : {A : Type ℓ} (n : ℕ) → ◌≡◌ {A = List A} (take n []) []
take-nil zero = refl
take-nil (suc n) = refl

-- There is something to put into a block.
abbrev pub HasContent : List Attestation → List Tx → Type 0
HasContent waiting txs = (waiting ≢ []) ⊎ (txs ≢ [])

length-ne-nil : (txs : List Tx) → txs ≢ [] → (length txs == 0) ≡ false
length-ne-nil [] h = absurd (h refl)
length-ne-nil (tx ∷ txs) h = ground arith

pub commit_or_skip-commits :
    (host : Host) (now slot count : ℕ) (id : ℕ × ℕ) (c : Candidate) (waiting : List Attestation)
    (n : Node)
    → HasContent waiting c.body.transactions
    → commit_or_skip host now slot id count (some c) waiting n
      ≡ commit host now slot (with_attestations (take count waiting) c) n
unfolding commit_or_skip
commit_or_skip-commits host now slot count id c (a ∷ as') n h = refl
commit_or_skip-commits host now slot count id c [] n (inl h) = absurd (h refl)
commit_or_skip-commits host now slot count id c [] n (inr h) =
    ap (λ b. (if b then mark_missed id else commit host now slot (with_attestations [] c)) n)
      (length-ne-nil c.body.transactions h)
    ∙ ap (λ as'. commit host now slot (with_attestations as' c) n) (sym (take-nil count))

module _ (host : Host) (now epoch count validator slot : ℕ) (parent : Block) (fee : ℕ) (n : Node)
    (r : IsReady validator slot parent fee n) (next : slot ≡ slot_of parent + 1)
    (staked : IsStaked validator n.registry)
    (acceptable : All (λ tx. IsAcceptable host.tx_formats tx) (pending host n))
    (content : HasContent (waiting_attestations epoch n.duties) (pending host n)) where
  -- The node before the commit.
  abbrev pub emptied : Node
  emptied = record (assigned slot validator n) {
    pool = removed (pending host n) (after_reading host n).pool;
  }

  abbrev pub candidate : Candidate
  candidate = make_candidate slot validator parent fee (pending host n)

  pub built :
      build_candidate_block host slot (assigned slot validator n) ≡ (ok (some candidate), emptied)
  unfolding create_proposal_data make_candidate
  built =
      build_candidate_block-keeps host slot (create_proposal_data slot validator) parent fee
        (assigned slot validator n) (duty_of r) (unfold create_proposal_data in refl) r.tip
        r.base_fee
        (candidate-nil host.tx_formats candidate parent next acceptable n.registry n.blocks staked
          r.tip)

  pub propose_by-commits :
      propose_by host now slot epoch count validator n
      ≡ commit host now slot
          (with_attestations (take count (waiting_attestations epoch n.duties)) candidate)
          emptied
  unfolding propose_by propose_assigned with_waiting
  propose_by-commits =
      bind_ok (on_proposals (assign_proposal_duty slot validator))
        (propose_assigned host now slot epoch count) (id_of slot) n (assigned slot validator n)
        (assign_ready r)
      ∙ bind_ok (build_candidate_block host slot)
          (with_waiting host now slot epoch count (id_of slot)) (some candidate)
          (assigned slot validator n) emptied built
      ∙ commit_or_skip-commits host now slot count (id_of slot) candidate
          (waiting_attestations epoch n.duties) emptied (unfold make_candidate in content)
