-- ===== src/Attestor.antt =====
-- Attestation duties (src/BachiCoin/lib_attestor/attestor_index_service.py and
-- attestor_helper.py). An identifier is the pair of a slot and a validator; the records are kept
-- by slot, then by validator.
pub mod Assigned
use bachi_coin.Prelude.{
  ℕ, zero, suc, ◌+◌, ◌*◌, ◌/◌, max, Bool, true, false, Option, none, some, List, [], ◌∷◌, ◌++◌, map,
  length, keep, leb, ◌==◌, if◌then◌else◌,
}
use bachi_coin.Dict.{Key, Dict, get, put, contains}
use bachi_coin.Exec.{Result, ok, err, assertion_failed}
use bachi_coin.Block.{Attestation, AttestorStatus}

abbrev pub slots_per_epoch : ℕ
slots_per_epoch = 32

pub record Duties : Type 0 where
  pub records : Dict (Dict Attestation)
  pub duties_by_epoch : Dict (List (ℕ × ℕ))
  pub duties_by_validator : Dict (List (ℕ × ℕ))
  pub total_duties_assigned : ℕ
  -- `none` is the initial -1
  pub last_assigned_epoch : Option ℕ

unfoldable pub create_attestation_data : ℕ → ℕ → ℕ → ℕ → Attestation
create_attestation_data slot epoch validator_index committee_index = record {
  slot = slot;
  epoch = epoch;
  validator_index = validator_index;
  committee_index = committee_index;
  status = AttestorStatus.awaiting_duty;
  target_root = none;
  target_epoch = none;
}

abbrev pub records_at : ℕ → Dict (Dict Attestation) → Dict Attestation
records_at slot d = elim (get slot d) [ none ↦ [] | some at ↦ at ]

-- `load_attestation` and `save_attestation`
unfoldable pub load_attestation : ℕ × ℕ → Dict (Dict Attestation) → Option Attestation
load_attestation (slot, validator) d = get validator (records_at slot d)

unfoldable pub save_attestation :
    ℕ × ℕ → Attestation → Dict (Dict Attestation) → Dict (Dict Attestation)
save_attestation (slot, validator) a d = put slot (put validator a (records_at slot d)) d

abbrev pub list_at : Key → Dict (List (ℕ × ℕ)) → List (ℕ × ℕ)
list_at k d = elim (get k d) [ none ↦ [] | some ids ↦ ids ]

abbrev later_epoch : Option ℕ → ℕ → Option ℕ
later_epoch none epoch = some epoch
later_epoch (some e) epoch = some (max e epoch)

-- `update_index_with_attestation`
unfoldable pub update_index_with_attestation : Attestation → Duties → Duties
update_index_with_attestation a s =
    let id : ℕ × ℕ = (a.slot, a.validator_index) in
    record s {
      duties_by_epoch =
          put a.epoch (list_at a.epoch s.duties_by_epoch ++ id ∷ []) s.duties_by_epoch;
      duties_by_validator =
          put a.validator_index (list_at a.validator_index s.duties_by_validator ++ id ∷ [])
            s.duties_by_validator;
      total_duties_assigned = s.total_duties_assigned + 1;
      last_assigned_epoch = later_epoch s.last_assigned_epoch a.epoch;
    }

-- The body of the inner loop, on the identifiers collected so far and the state; its data are always
-- valid for creation.
unfoldable pub assign_duty : ℕ → ℕ → ℕ → List (ℕ × ℕ) × Duties → List (ℕ × ℕ) × Duties
unfolding create_attestation_data save_attestation update_index_with_attestation
assign_duty slot epoch validator (ids, s) =
    let a = create_attestation_data slot epoch validator 0 in
    (
      ids ++ (slot, validator) ∷ [],
      update_index_with_attestation a
          (record s { records = save_attestation (slot, validator) a s.records }),
    )

-- The inner loop, over the active validators.
unfoldable pub assign_slot : ℕ → ℕ → List ℕ → List (ℕ × ℕ) × Duties → List (ℕ × ℕ) × Duties
unfolding assign_duty
assign_slot slot epoch [] c = c
assign_slot slot epoch (v ∷ vs) c = assign_slot slot epoch vs (assign_duty slot epoch v c)

-- The outer loop, for `count` slots from `slot` on.
unfoldable pub assign_slots : ℕ → ℕ → ℕ → List ℕ → List (ℕ × ℕ) × Duties → List (ℕ × ℕ) × Duties
unfolding assign_slot
assign_slots zero slot epoch vs c = c
assign_slots (suc count) slot epoch vs c =
    assign_slots count (slot + 1) epoch vs (assign_slot slot epoch vs c)

-- `assign_attestation_duties_for_epoch`, given the active validators.
unfoldable pub assign_attestation_duties_for_epoch :
    List ℕ → ℕ → Duties → Result (List (ℕ × ℕ)) × Duties
unfolding assign_slots
assign_attestation_duties_for_epoch active epoch s =
    if length active == 0
    then (err assertion_failed, s)
    else if contains epoch s.duties_by_epoch
    then (err assertion_failed, s)
    else (let (ids, s') =
          assign_slots slots_per_epoch (epoch * slots_per_epoch) epoch active ([], s) in
        (ok ids, s'))

load_all : List (ℕ × ℕ) → Dict (Dict Attestation) → List Attestation
unfolding load_attestation
load_all [] d = []
load_all (id ∷ ids) d =
    let rest = load_all ids d in elim (load_attestation id d) [ none ↦ rest | some a ↦ a ∷ rest ]

-- `get_attestations_for_epoch`, with no status filter.
unfoldable pub get_attestations_for_epoch : ℕ → Duties → List Attestation
unfolding load_all
get_attestations_for_epoch epoch s = load_all (list_at epoch s.duties_by_epoch) s.records

-- `update_attestation_status`, with the payload as a function on the record.
unfoldable pub update_attestation_status :
    ℕ × ℕ → (Attestation → Attestation) → Duties → Bool × Duties
unfolding load_attestation save_attestation
update_attestation_status id payload s = elim (load_attestation id s.records) [
  | none ↦ (false, s)
  | some a ↦ (true, record s { records = save_attestation id (payload a) s.records })
]

abbrev pub included : Key → ℕ → Attestation → Attestation
included block_hash epoch a = record a {
  target_root = some block_hash;
  target_epoch = some epoch;
  status = AttestorStatus.included_success;
}

record_all : List Attestation → Key → ℕ → Duties → Duties
unfolding update_attestation_status
record_all [] block_hash epoch s = s
record_all (a ∷ as') block_hash epoch s =
    record_all as' block_hash epoch
      (update_attestation_status (a.slot, a.validator_index) (included block_hash epoch) s).1

-- `simulate_and_record_attestations_for_slot`
unfoldable pub simulate_and_record_attestations_for_slot : ℕ → Key → Duties → Duties
unfolding get_attestations_for_epoch record_all
simulate_and_record_attestations_for_slot slot block_hash s =
    let epoch = slot / slots_per_epoch in
    record_all (keep (λ a. a.slot == slot) (get_attestations_for_epoch epoch s)) block_hash epoch s
