-- ===== src/Consensus/Loop.antt =====
-- The consensus loop (process_block_attestations, finalize_epoch_if_needed and run_consensus of
-- src/BachiCoin/lib_consensus/consensus.py). The clock's readings are an argument, one for each slot
-- to run; a report is what the generator yields.
use bachi_coin.Prelude.{
  ℕ, ◌+◌, ◌-◌, ◌*◌, ◌/◌, ◌%◌, Bool, true, false, not, Option, none, some, List, [], ◌∷◌, length,
  ◌==◌, if◌then◌else◌,
}
use bachi_coin.Dict.{Key, get, put}
use bachi_coin.Exec.{
  Result, ok, err, Exec, pure, raise, gets, or_raise, for_each, ◌>>=◌, ◌>>◌, assertion_failed,
  type_error,
}
use bachi_coin.Block.{Block, Header, Attestation, AttestorStatus, attestations_of, slot_of}
use bachi_coin.BlockIndex.{BlockStore, get_chain_tip, get_blocks_by_slot_range}
use bachi_coin.Validator.{get_active_validators}
use bachi_coin.Attestor.{
  slots_per_epoch, Duties, get_attestations_for_epoch, assign_attestation_duties_for_epoch,
  update_attestation_status,
}
use bachi_coin.Finalizer.{Checkpoint, process_epoch_finality}
use bachi_coin.Node.{Host, Node, on_blocks, on_duties, on_world}
use bachi_coin.Consensus.{get_block, initialize_chain_if_needed, propose_block_for_slot}

abbrev pub included_in : Key → Option Header → Attestation → Attestation
included_in hash header a = record a {
  target_root = some hash;
  target_epoch = elim header [ none ↦ none | some h ↦ some h.epoch ];
  status = AttestorStatus.included_success;
}

unfoldable pub include_all : Key → Option Header → List Attestation → Duties → Duties
unfolding update_attestation_status
include_all hash header [] d = d
include_all hash header (a ∷ as') d =
    include_all hash header as'
      (update_attestation_status (a.slot, a.validator_index) (included_in hash header) d).1

abbrev pub include_block : Key → Option Block → Duties → ℕ × Duties
include_block hash none d = (0, d)
include_block hash (some b) d =
    (length (attestations_of b), include_all hash b.header (attestations_of b) d)

-- `process_block_attestations`
unfoldable pub process_block_attestations : Key → Exec Node ℕ
unfolding include_all
process_block_attestations hash = do
  b ← on_blocks (get_block hash)
  on_duties (λ d. let (count, d') = include_block hash b d in (ok count, d'))

-- `update_block` with a flag.
unfoldable pub update_flag : (Block → Block) → Block → Exec BlockStore (Unit {0})
update_flag change b s =
    if b.block_hash == 0 then (err assertion_failed, s) else elim (get b.block_hash s.records) [
      | none ↦ (err assertion_failed, s)
      | some old ↦ (ok tt, record s { records = put b.block_hash (change old) s.records })
    ]

flag_all : (Block → Block) → Result (List Block) → Exec BlockStore (Unit {0})
unfolding update_flag
flag_all change (err e) = raise e
flag_all change (ok blocks) = for_each blocks (update_flag change)

-- The flags of the blocks of an epoch, if there is one.
unfoldable pub flag_epoch : (Block → Block) → Option ℕ → Exec BlockStore (Unit {0})
unfolding flag_all get_blocks_by_slot_range
flag_epoch change none s = (ok tt, s)
flag_epoch change (some epoch) s =
    let start = epoch * slots_per_epoch in
    flag_all change (get_blocks_by_slot_range start (start + slots_per_epoch - 1) s) s

abbrev pub assert_result : Option Checkpoint → Exec Node (Unit {0})
assert_result none = raise assertion_failed
assert_result (some _) = pure tt

-- `finalize_epoch_if_needed`
unfoldable pub finalize_epoch_if_needed : ℕ → Exec Node (Bool × Option ℕ)
unfolding get_attestations_for_epoch process_epoch_finality flag_epoch
finalize_epoch_if_needed slot =
    if not ((slot + 1) % slots_per_epoch == 0) then pure (false, none) else (do
      before ← gets (λ n. n)
      result ← on_world (
          process_epoch_finality (get_attestations_for_epoch (slot / slots_per_epoch) before.duties)
            before.registry)
      assert_result result
      n ← gets (λ n. n)
      on_blocks (flag_epoch (λ b. record b { is_justified = true }) n.finality.justified_epoch)
      on_blocks (flag_epoch (λ b. record b { is_finalized = true }) n.finality.finalized_epoch)
      pure (true, n.finality.finalized_epoch))

pub data Report : Type 0 where
  skipped : ℕ → Report
  processed : ℕ → Key → Block → Bool × Option ℕ → Report

abbrev pub with_duties : Node → Result (List (ℕ × ℕ)) × Duties → Result (Unit {0}) × Node
with_duties n (ok _, d) = (ok tt, record n { duties = d })
with_duties n (err e, d) = (err e, record n { duties = d })

unfoldable pub assign_missing : ℕ → List Attestation → Exec Node (Unit {0})
unfolding assign_attestation_duties_for_epoch
assign_missing epoch (_ ∷ _) n = (ok tt, n)
assign_missing epoch [] n =
    with_duties n
      (assign_attestation_duties_for_epoch (get_active_validators n.registry) epoch n.duties)

-- `if not get_attestations_for_epoch(epoch): assign_attestation_duties_for_epoch(epoch)`
unfoldable pub ensure_duties : ℕ → Exec Node (Unit {0})
unfolding get_attestations_for_epoch assign_missing
ensure_duties epoch n = assign_missing epoch (get_attestations_for_epoch epoch n.duties) n

module _ (host : Host) where
  unfoldable pub after_proposal : ℕ → Option Key → Exec Node (Report × Option Block)
  unfolding process_block_attestations finalize_epoch_if_needed
  after_proposal slot none = gets (λ n. (skipped slot, get_chain_tip n.blocks))
  after_proposal slot (some hash) =
      if hash == 0 then gets (λ n. (skipped slot, get_chain_tip n.blocks)) else (do
        process_block_attestations hash >>= λ _. pure tt
        finality ← finalize_epoch_if_needed slot
        stored ← on_blocks (get_block hash)
        b ← or_raise stored assertion_failed
        pure (processed slot hash b finality, some b))

  unfoldable pub run_proposal : ℕ → ℕ → List ℕ → Exec Node (Report × Option Block)
  unfolding propose_block_for_slot after_proposal
  run_proposal now slot active =
      propose_block_for_slot host now slot (slot / slots_per_epoch) active >>= after_proposal slot

  -- The body of the loop.
  unfoldable pub run_slot : ℕ → List ℕ → Block → Exec Node (Report × Option Block)
  unfolding ensure_duties run_proposal
  run_slot now active tip =
      let slot = slot_of tip + 1 in
      ensure_duties (slot / slots_per_epoch) >>= λ _. run_proposal now slot active

  unfoldable pub run_slots : List ℕ → List ℕ → Option Block → Exec Node (List Report)
  unfolding run_slot
  run_slots [] active tip = pure []
  run_slots (now ∷ times) active none = raise type_error
  run_slots (now ∷ times) active (some tip) =
      run_slot now active tip >>= λ r. run_slots times active r.1 >>= λ rest. pure (r.0 ∷ rest)

  -- `run_consensus` after the initialization, with the active validators.
  unfoldable pub run_active : List ℕ → Block → List ℕ → Exec Node (List Report)
  unfolding run_slots
  run_active times tip [] = raise assertion_failed
  run_active times tip (v ∷ vs) = run_slots times (v ∷ vs) (some tip)

  -- `run_consensus`, run to its end.
  unfoldable pub run_consensus : ℕ → List ℕ → Exec Node (List Report)
  unfolding initialize_chain_if_needed run_active
  run_consensus start times = initialize_chain_if_needed host start >>= λ tip n.
      run_active times tip (get_active_validators n.registry) n
