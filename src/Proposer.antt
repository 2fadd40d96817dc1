-- ===== src/Proposer.antt =====
-- Proposal duties (src/BachiCoin/lib_proposer/proposer_index_service.py and proposer_helper.py). An
-- identifier is the text "epoch-slot", which is the pair; the records are kept by epoch, then by
-- slot. The printed size of a payload and the times are left out. The data of a duty and of its
-- updates always pass the schema.
pub mod Assigned
pub mod Updated
use bachi_coin.Prelude.{
  ℕ, ◌+◌, ◌/◌, max, Bool, true, false, Option, none, some, List, [], ◌∷◌, ◌++◌, length, ◌==◌,
  if◌then◌else◌,
}
use bachi_coin.Dict.{Key, Dict, get, put, contains}
use bachi_coin.Exec.{Result, ok, err, assertion_failed}
use bachi_coin.Block.{Block, Header, transactions_of}
use bachi_coin.Validator.{Registry, get_validator}
use bachi_coin.Attestor.{slots_per_epoch, list_at}

pub data ProposerStatus : Type 0 where
  awaiting_duty proposing proposal_success proposal_missed proposal_orphaned : ProposerStatus

pub record Proposal : Type 0 where
  pub slot : ℕ
  pub epoch : ℕ
  pub validator_index : ℕ
  pub status : ProposerStatus
  pub block_hash : Option Key
  pub transaction_count : ℕ

pub record Proposals : Type 0 where
  pub records : Dict (Dict Proposal)
  pub duties_by_slot : Dict (ℕ × ℕ)
  pub duties_by_epoch : Dict (List (ℕ × ℕ))
  pub total_duties_assigned : ℕ
  -- `none` is the initial -1
  pub last_assigned_slot : Option ℕ

abbrev pub id_of : ℕ → ℕ × ℕ
id_of slot = (slot / slots_per_epoch, slot)

-- `create_proposal_data`
unfoldable pub create_proposal_data : ℕ → ℕ → Proposal
create_proposal_data slot validator_index = record {
  slot = slot;
  epoch = slot / slots_per_epoch;
  validator_index = validator_index;
  status = awaiting_duty;
  block_hash = none;
  transaction_count = 0;
}

abbrev pub later_slot : Option ℕ → ℕ → Option ℕ
later_slot none slot = some slot
later_slot (some s) slot = some (max s slot)

-- `update_index_with_proposal`
unfoldable pub update_index_with_proposal : Proposal → Proposals → Proposals
update_index_with_proposal p s =
    let id : ℕ × ℕ = (p.epoch, p.slot) in
    record s {
      duties_by_slot = put p.slot id s.duties_by_slot;
      duties_by_epoch =
          put p.epoch (list_at p.epoch s.duties_by_epoch ++ id ∷ []) s.duties_by_epoch;
      total_duties_assigned = s.total_duties_assigned + 1;
      last_assigned_slot = later_slot s.last_assigned_slot p.slot;
    }

abbrev pub proposals_in : ℕ → Dict (Dict Proposal) → Dict Proposal
proposals_in epoch d = elim (get epoch d) [ none ↦ [] | some at ↦ at ]

-- `load_proposal` and `save_proposal`
unfoldable pub load_proposal : ℕ × ℕ → Proposals → Option Proposal
load_proposal (epoch, slot) s = get slot (proposals_in epoch s.records)

unfoldable pub save_proposal : ℕ × ℕ → Proposal → Proposals → Proposals
save_proposal (epoch, slot) p s = record s {
  records = put epoch (put slot p (proposals_in epoch s.records)) s.records;
}

abbrev pub is_known : ℕ → Registry → Bool
is_known i r = elim (get_validator i r) [ none ↦ false | some _ ↦ true ]

unfoldable pub add_duty : ℕ → ℕ → Proposals → Proposals
unfolding create_proposal_data save_proposal update_index_with_proposal
add_duty slot validator s =
    let p = create_proposal_data slot validator in
    update_index_with_proposal p (save_proposal (p.epoch, p.slot) p s)

-- `assign_proposal_duty`: the duty's identifier.
unfoldable pub assign_proposal_duty : ℕ → ℕ → Registry → Proposals → Result (ℕ × ℕ) × Proposals
unfolding get_validator add_duty
assign_proposal_duty slot validator r s =
    if is_known validator r
    then (if contains slot s.duties_by_slot
        then (err assertion_failed, s)
        else (ok (id_of slot), add_duty slot validator s))
    else (err assertion_failed, s)

-- `get_proposal_by_slot`
unfoldable pub get_proposal_by_slot : ℕ → Proposals → Option Proposal
unfolding load_proposal
get_proposal_by_slot slot s = elim (get slot s.duties_by_slot) [
  | none ↦ none
  | some id ↦ load_proposal id s
]

load_each : List (ℕ × ℕ) → Proposals → List Proposal
unfolding load_proposal
load_each [] s = []
load_each (id ∷ ids) s =
    let rest = load_each ids s in elim (load_proposal id s) [ none ↦ rest | some p ↦ p ∷ rest ]

-- `get_proposals_for_epoch`
unfoldable pub get_proposals_for_epoch : ℕ → Proposals → List Proposal
unfolding load_each
get_proposals_for_epoch epoch s = load_each (list_at epoch s.duties_by_epoch) s

-- `update_proposal_status`, with the payload as a function on the record.
unfoldable pub update_proposal_status :
    ℕ × ℕ → ProposerStatus → (Proposal → Proposal) → Proposals → Bool × Proposals
unfolding load_proposal save_proposal
update_proposal_status id status payload s = elim (load_proposal id s) [
  | none ↦ (false, s)
  | some p ↦ (true, save_proposal id (record (payload p) { status = status }) s)
]

abbrev pub committed : Block → Proposal → Proposal
committed b p = record p {
  block_hash = some b.block_hash;
  transaction_count = length (transactions_of b);
}

unfoldable pub mark_committed : ℕ → Block → Option Proposal → Proposals → Bool × Proposals
unfolding update_proposal_status
mark_committed slot b none s = (false, s)
mark_committed slot b (some p) s =
    if slot == 0
    then (false, s)
    else update_proposal_status (p.epoch, p.slot) proposal_success (committed b) s

unfoldable pub mark_at : Block → Option Header → Proposals → Bool × Proposals
unfolding mark_committed get_proposal_by_slot
mark_at b none s = (false, s)
mark_at b (some h) s = mark_committed h.slot b (get_proposal_by_slot h.slot s) s

-- `update_proposal_status_after_commit`: a slot of 0 is taken for a missing one.
unfoldable pub update_proposal_status_after_commit : Block → Proposals → Bool × Proposals
unfolding mark_at
update_proposal_status_after_commit b s = mark_at b b.header s
