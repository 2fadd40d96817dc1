-- ===== src/Finalizer.antt =====
-- Epoch finality (src/BachiCoin/lib_finalizer/finalizer_index_service.py and finalizer_helper.py).
-- The finalizer's checkpoint store and metadata, and the blocks whose statuses it updates, are its
-- state. An epoch of -1, the initial one, is `none`.
pub mod Justified
use bachi_coin.Prelude.{
  ℕ, ◌+◌, ◌-◌, ◌*◌, Bool, true, false, ◌&&◌, Option, none, some, List, [], ◌∷◌, ltb, leb, ◌==◌,
  if◌then◌else◌, keep,
}
use bachi_coin.Dict.{Key, Dict, get, put}
use bachi_coin.Exec.{Result, ok, err, Exec, pure, gets, modify, for_each, ◌>>=◌, ◌>>◌}
use bachi_coin.BlockIndex.{BlockStore, update_block_status, get_blocks_by_slot_range}
use bachi_coin.Block.{Block, BlockStatus, Attestation, AttestorStatus}
use bachi_coin.Validator.{Registry, Validator, get_validator, total_effective_balance}
use bachi_coin.Attestor.{slots_per_epoch}

pub data FinalityStatus : Type 0 where
  justified finalized : FinalityStatus

pub record Checkpoint : Type 0 where
  pub epoch : ℕ
  pub root : Key
  pub status : FinalityStatus

-- `checkpoints` are the records; `indexed` are the copies in the index.
pub record Finality : Type 0 where
  pub checkpoints : Dict Checkpoint
  pub indexed : Dict Checkpoint
  pub justified_epoch : Option ℕ
  pub finalized_epoch : Option ℕ

unfoldable pub create_checkpoint_data : ℕ → Key → Checkpoint
create_checkpoint_data epoch root = record {
  epoch = epoch;
  root = root;
  status = FinalityStatus.justified;
}

unfoldable pub epoch_slot_range : ℕ → ℕ × ℕ
epoch_slot_range epoch = let start = epoch * slots_per_epoch in (start, start + slots_per_epoch - 1)

-- A counter of stake by target: its root and epoch.
abbrev pub Votes : Type 0
Votes = List ((Key × ℕ) × ℕ)

abbrev pub same_target : Key × ℕ → Key × ℕ → Bool
same_target (r, e) (r', e') = (r == r') && (e == e')

-- `target_votes[target] += stake`
unfoldable pub add_votes : Key × ℕ → ℕ → Votes → Votes
add_votes target stake [] = (target, stake) ∷ []
add_votes target stake ((t, n) ∷ votes) =
    let rest = add_votes target stake votes in
    if same_target t target then (t, n + stake) ∷ votes else (t, n) ∷ rest

-- The stake of a validator, 0 where there is no record. The cache of the source holds the same.
abbrev pub stake_at : ℕ → Registry → ℕ
stake_at i s = elim (get i s.records) [ none ↦ 0 | some v ↦ v.effective_balance ]

abbrev pub is_included : AttestorStatus → Bool
is_included AttestorStatus.included_success = true
is_included _ = false

-- The target of an attestation that counts: a root that is not empty.
abbrev pub vote_of : Attestation → Option (Key × ℕ)
vote_of a = elim a.target_root [ none ↦ none | some r ↦ if r == 0 then none else some (r, a.epoch) ]

unfoldable pub add_vote : Registry → Attestation → Option (Key × ℕ) → Votes → Votes
unfolding add_votes
add_vote s a none votes = votes
add_vote s a (some target) votes =
    let stake = stake_at a.validator_index s in
    if ltb 0 stake then add_votes target stake votes else votes

unfoldable pub tally_from : Registry → List Attestation → Votes → Votes
unfolding add_vote
tally_from s [] votes = votes
tally_from s (a ∷ as') votes = tally_from s as' (add_vote s a (vote_of a) votes)

-- `tally_attestations`
unfoldable pub tally_attestations : List Attestation → Registry → Votes × ℕ
unfolding tally_from total_effective_balance
tally_attestations attestations s =
    (tally_from s (keep (λ a. is_included a.status) attestations) [], total_effective_balance s)

-- `most_common(1)[0]`: of equal counts the first.
unfoldable pub most_common : Key × ℕ → ℕ → Votes → (Key × ℕ) × ℕ
most_common target best [] = (target, best)
most_common target best ((t, n) ∷ votes) =
    let later = most_common t n votes in
    let same = most_common target best votes in if ltb best n then later else same

-- `participating_stake * 3 >= total_stake * 2`
abbrev pub is_supermajority : ℕ → ℕ → Bool
is_supermajority participating total = leb (total * 2) (participating * 3)

-- `prev_justified_epoch >= 0 and prev_justified_epoch == winning_epoch - 1`
abbrev pub is_successor : Option ℕ → ℕ → Bool
is_successor none epoch = false
is_successor (some e) epoch = e + 1 == epoch

abbrev set_finalized : ℕ → Option Checkpoint → Dict Checkpoint → Dict Checkpoint
set_finalized e none d = d
set_finalized e (some c) d = put e (record c { status = FinalityStatus.finalized }) d

-- `update_checkpoint_status` to finalized, for the record of an epoch.
unfoldable pub finalize_checkpoint : Option ℕ → Dict Checkpoint → Dict Checkpoint
finalize_checkpoint none d = d
finalize_checkpoint (some e) d = set_finalized e (get e d) d

-- What the finalizer writes: its own store, and the blocks through the block service.
pub record World : Type 0 where
  pub finality : Finality
  pub blocks : BlockStore

abbrev pub on_blocks : Exec BlockStore (Unit {0}) → Exec World (Unit {0})
on_blocks m w = let (r, b) = m w.blocks in (r, record w { blocks = b })

abbrev pub on_finality : (Finality → Finality) → Exec World (Unit {0})
on_finality change = modify (λ w. record w { finality = change w.finality })

set_status : BlockStatus → Block → Exec BlockStore (Unit {0})
unfolding update_block_status
set_status status b s =
    let (r, s') = update_block_status b.block_hash status s in
    (elim r [ ok _ ↦ ok tt | err e ↦ err e ], s')

set_statuses : BlockStatus → Result (List Block) → Exec BlockStore (Unit {0})
unfolding set_status
set_statuses status (err e) s = (err e, s)
set_statuses status (ok blocks) s = for_each blocks (set_status status) s

-- `_update_block_statuses_for_epoch`
unfoldable pub update_block_statuses_for_epoch : ℕ → BlockStatus → Exec BlockStore (Unit {0})
unfolding epoch_slot_range set_statuses get_blocks_by_slot_range
update_block_statuses_for_epoch epoch status s =
    let (start, stop) = epoch_slot_range epoch in
    set_statuses status (get_blocks_by_slot_range start stop s) s

-- `save_checkpoint` and `_add_checkpoint_to_index`
unfoldable pub store_checkpoint : Key → ℕ → Finality → Finality
unfolding create_checkpoint_data
store_checkpoint root epoch s =
    let c = create_checkpoint_data epoch root in
    record s { checkpoints = put epoch c s.checkpoints; indexed = put epoch c s.indexed }

-- `_update_finality_in_index`
unfoldable pub update_finality_in_index : Option ℕ → Option ℕ → Finality → Finality
update_finality_in_index just fin s = record s { justified_epoch = just; finalized_epoch = fin }

-- The two branches after the justification, with the epochs from before it.
unfoldable pub advance_finality : Option ℕ → Option ℕ → ℕ → Exec World (Unit {0})
unfolding finalize_checkpoint update_block_statuses_for_epoch update_finality_in_index
advance_finality none fin epoch = on_finality (update_finality_in_index (some epoch) fin)
advance_finality (some e) fin epoch =
    if is_successor (some e) epoch
    then (do
      on_finality (λ s. record s { checkpoints = finalize_checkpoint (some e) s.checkpoints })
      on_blocks (update_block_statuses_for_epoch e BlockStatus.finalized)
      on_finality (update_finality_in_index (some epoch) (some e)))
    else on_finality (update_finality_in_index (some epoch) fin)

-- From the supermajority on.
unfoldable pub justify : Key → ℕ → Exec World (Unit {0})
unfolding store_checkpoint update_block_statuses_for_epoch advance_finality
justify root epoch = do
  before ← gets (λ w. w.finality)
  on_finality (store_checkpoint root epoch)
  on_blocks (update_block_statuses_for_epoch epoch BlockStatus.justified)
  advance_finality before.justified_epoch before.finalized_epoch epoch

unfoldable pub decide : (Key × ℕ) × ℕ → ℕ → Exec World (Option Checkpoint)
unfolding justify
decide ((root, epoch), participating) total =
    if is_supermajority participating total
    then (justify root epoch >>= λ _. gets (λ w. get epoch w.finality.checkpoints))
    else pure none

unfoldable pub process_votes : Votes → ℕ → Exec World (Option Checkpoint)
unfolding decide most_common
process_votes [] total = pure none
process_votes ((t, n) ∷ votes) total = decide (most_common t n votes) total

-- `process_epoch_finality`, given the attestations of the epoch. With no successful attestation
-- there is no vote, which is the same answer.
unfoldable pub process_epoch_finality : List Attestation → Registry → Exec World (Option Checkpoint)
unfolding process_votes tally_attestations
process_epoch_finality attestations r =
    let (votes, total) = tally_attestations attestations r in process_votes votes total
