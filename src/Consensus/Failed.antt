-- ===== src/Consensus/Failed.antt =====
-- What a pending transaction that fails its rules does to the chain.
use mathlib.Core.Path.{subst}
use bachi_coin.Prelude.{
  ℕ, ◌+◌, ◌%◌, ◌≡◌, ◌≢◌, refl, sym, ap, ◌∙◌, true, none, some, List, [], ◌∷◌, arith, length,
  get_elem?,
}
use bachi_coin.Dict.{get, contains}
use bachi_coin.Exec.{ok, err, type_error, bind_ok}
use bachi_coin.Block.{Block, Attestation, slot_of}
use bachi_coin.BlockIndex.{get_chain_tip}
use bachi_coin.Proposer.{
  assign_proposal_duty, add_duty, create_proposal_data, is_known, id_of, get_proposal_by_slot,
}
use bachi_coin.Proposer.Assigned.{
  IsAssigned, assign_proposal_duty-assigns, get_proposal-add_duty, index-add_duty,
}
use bachi_coin.Node.{Host, Node, on_proposals}
use bachi_coin.Candidate.{build_candidate_block, next_base_fee}
use bachi_coin.Candidate.Built.{pending, after_reading, has_invalid, build_candidate_block-drops}
use bachi_coin.Consensus.{
  propose_by, with_waiting, propose_assigned, propose_block_for_slot, commit_or_skip,
  waiting_attestations,
}
use bachi_coin.Consensus.Stuck.{IsStuck}

-- The node once the slot's duty is assigned.
abbrev pub assigned : ℕ → ℕ → Node → Node
assigned slot validator n = record n { proposals = add_duty slot validator n.proposals }

pub record IsReady (validator slot : ℕ) (parent : Block) (fee : ℕ) (n : Node) : Type 0 where
  pub consistent : IsAssigned n.proposals
  pub known : is_known validator n.registry ≡ true
  pub free : get slot n.proposals.duties_by_slot ≡ none
  pub tip : get_chain_tip n.blocks ≡ some parent
  pub base_fee : next_base_fee parent.header ≡ some fee

module _ {validator slot : ℕ} {parent : Block} {fee : ℕ} {n : Node}
    (r : IsReady validator slot parent fee n) where
  pub duty_of :
      get_proposal_by_slot slot (assigned slot validator n).proposals
      ≡ some (create_proposal_data slot validator)
  duty_of = get_proposal-add_duty slot validator slot n.proposals r.consistent r.free ∙ ground arith

  pub assign_ready :
      on_proposals (assign_proposal_duty slot validator) n
      ≡ (ok (id_of slot), assigned slot validator n)
  assign_ready =
      ap (λ out. (out.0, record n { proposals = out.1 }))
        (assign_proposal_duty-assigns slot validator n.registry n.proposals r.known r.free)

module _ (host : Host) (now epoch count validator slot : ℕ) (parent : Block) (fee : ℕ) (n : Node)
    (r : IsReady validator slot parent fee n) (a : Attestation) (as' : List Attestation)
    (waiting : waiting_attestations epoch n.duties ≡ a ∷ as')
    (invalid : has_invalid host.tx_formats (pending host n) ≡ true) where
  drops :
      build_candidate_block host slot (assigned slot validator n)
      ≡ (ok none, after_reading host (assigned slot validator n))
  drops =
      build_candidate_block-drops host slot (create_proposal_data slot validator) parent fee
        (assigned slot validator n) (duty_of r) (unfold create_proposal_data in refl) r.tip
        r.base_fee invalid

  with_waiting-fails :
      with_waiting host now slot epoch count
        (id_of slot)
        none
        (after_reading host (assigned slot validator n))
      ≡ (err type_error, after_reading host (assigned slot validator n))
  unfolding with_waiting commit_or_skip
  with_waiting-fails =
      ap
        (λ w.
          commit_or_skip host now slot (id_of slot) count none w
            (after_reading host (assigned slot validator n)))
        waiting

  propose_by-fails :
      propose_by host now slot epoch count validator n
      ≡ (err type_error, after_reading host (assigned slot validator n))
  unfolding propose_by propose_assigned
  propose_by-fails =
      bind_ok (on_proposals (assign_proposal_duty slot validator))
        (propose_assigned host now slot epoch count) (id_of slot) n (assigned slot validator n)
        (assign_ready r)
      ∙ bind_ok (build_candidate_block host slot)
          (with_waiting host now slot epoch count (id_of slot)) none (assigned slot validator n)
          (after_reading host (assigned slot validator n)) drops
      ∙ with_waiting-fails

module _ (slot validator : ℕ) (host : Host) (n : Node) (parent : Block)
    (tip : get_chain_tip n.blocks ≡ some parent) (begun : n.blocks.chain_height ≢ none)
    (next : slot ≡ slot_of parent + 1) where
  pub assigned-IsStuck : IsStuck (after_reading host (assigned slot validator n))
  assigned-IsStuck = record {
    tip = parent;
    stored = tip;
    begun = begun;
    taken =
        ap (λ s. contains s (assigned slot validator n).proposals.duties_by_slot) (sym next)
        ∙ ground (arith, index-add_duty slot validator slot n.proposals);
  }

head_of :
    (xs : List Attestation)
    → xs ≢ []
    → (a : Attestation) × (as' : List Attestation) × (xs ≡ a ∷ as')
head_of [] h = absurd (h refl)
head_of (a ∷ as') h = (a, as', refl)

pub propose-by :
    (host : Host) (now slot epoch v : ℕ) (vs : List ℕ) (validator : ℕ) (n : Node)
    → get_elem? (v ∷ vs) (slot % length (v ∷ vs)) ≡ some validator
    → propose_block_for_slot host now slot epoch (v ∷ vs) n
      ≡ propose_by host now slot epoch (length (v ∷ vs)) validator n
unfolding propose_block_for_slot
propose-by host now slot epoch v vs validator n chosen = rw chosen refl

-- Let a block be due for the slot after the tip, from a known validator, with attestations waiting.
-- If some pending transaction fails its own rules, the proposal raises, and the chain is stuck: the
-- slot has its duty, so every later run of the loop raises as well.
pub propose_block_for_slot-IsStuck :
    (host : Host) (now epoch v : ℕ) (vs : List ℕ) (validator : ℕ) (parent : Block) (fee : ℕ)
    (n : Node)
    → n.blocks.chain_height ≢ none
    → get_elem? (v ∷ vs) ((slot_of parent + 1) % length (v ∷ vs)) ≡ some validator
    → IsReady validator (slot_of parent + 1) parent fee n
    → waiting_attestations epoch n.duties ≢ []
    → has_invalid host.tx_formats (pending host n) ≡ true
    → let out = propose_block_for_slot host now (slot_of parent + 1) epoch (v ∷ vs) n in
      (out.0 ≡ err type_error) × IsStuck out.1
propose_block_for_slot-IsStuck host now epoch v vs validator parent fee n begun chosen r waiting
      invalid =
    let slot = slot_of parent + 1 in
    let (a, as', e) = head_of (waiting_attestations epoch n.duties) waiting in
    let q =
      propose-by host now slot epoch v vs validator n chosen
      ∙ propose_by-fails host now epoch (length (v ∷ vs)) validator slot parent fee n r a as' e
          invalid in
    (
      ap (λ o. o.0) q,
      subst IsStuck (sym (ap (λ o. o.1) q))
          (assigned-IsStuck slot validator host n parent r.tip begun refl),
    )
