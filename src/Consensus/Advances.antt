-- ===== src/Consensus/Advances.antt =====
-- The chain advances by a block.
use mathlib.Core.Path.{subst}
use bachi_coin.Prelude.{
  ℕ, ◌+◌, ◌%◌, ◌≤◌, ◌<◌, ◌≡◌, ◌≢◌, refl, sym, ap, ◌∙◌, true, Option, none, some, List, [], ◌∷◌,
  arith, length, take, get_elem?,
}
use bachi_coin.Dict.{Key, get}
use bachi_coin.Exec.{Result, ok}
use bachi_coin.Tx.{Tx}
use bachi_coin.Block.{Block, Header, Attestation, slot_of}
use bachi_coin.BlockIndex.{get_chain_tip}
use bachi_coin.BlockCheck.{validate_for_creation, oldest_timestamp}
use bachi_coin.Fee.{calculate_gas_used, min_base_fee}
use bachi_coin.Proposer.{
  proposal_success, is_known, Proposal, add_duty, create_proposal_data, get_proposal_by_slot,
}
use bachi_coin.Proposer.Assigned.{IsAssigned, add_duty-IsAssigned, index-add_duty}
use bachi_coin.Validator.{Registry}
use bachi_coin.Node.{Host, Node}
use bachi_coin.Candidate.{
  Candidate, default_gas_limit, next_base_fee, make_candidate, candidate_fields, prepare_candidate,
}
use bachi_coin.Candidate.Built.{pending}
use bachi_coin.Consensus.{waiting_attestations, with_attestations, commit, propose_block_for_slot}
use bachi_coin.Consensus.Progress.{IsHeader, IsStaked, next_fee}
use bachi_coin.Consensus.Failed.{IsReady, duty_of, propose-by}
use bachi_coin.Consensus.Commits.{
  done, commit_lem, done-tip, done-IsAssigned, done-duties, done-success,
}
use bachi_coin.Consensus.Offered.{
  IsHashing, IsPayload, gas_limit_kept, fits, HasContent, emptied, propose_by-commits,
}

-- The tip of a chain that can go on.
pub record IsAlive (host : Host) (tip : Block) (n : Node) : Type 0 where
  pub stored : get_chain_tip n.blocks ≡ some tip
  pub header : IsHeader tip.header
  pub named : tip.block_hash ≢ 0
  pub formed : host.is_valid_block_hash tip.block_hash ≡ true
  pub consistent : IsAssigned n.proposals
  pub fresh : (slot : ℕ) → slot_of tip < slot → get slot n.proposals.duties_by_slot ≡ none

-- A block that follows the tip.
pub record Follows (slot : ℕ) (tip b : Block) (hash : Key) (n : Node) : Type 0 where
  pub named : b.block_hash ≡ hash
  pub in_slot : slot_of b ≡ slot
  pub child : (h : Header) → b.header ≡ some h → h.parent_hash ≡ tip.block_hash
  pub duty :
      (p : Proposal) × (get_proposal_by_slot slot n.proposals ≡ some p)
      × (p.status ≡ proposal_success)
      × (p.block_hash ≡ some hash)

is_known_of : (i : ℕ) (reg : Registry) → IsStaked i reg → is_known i reg ≡ true
is_known_of i reg s = ground (arith, s.known)

header_kept :
    (host : Host) (now slot validator : ℕ) (parent : Block) (fee : ℕ) (txs : List Tx)
    (attestations : List Attestation)
    → IsHeader parent.header
    → min_base_fee ≤ fee
    → calculate_gas_used txs ≤ default_gas_limit
    → IsHeader
        (prepare_candidate host now
          (with_attestations attestations (make_candidate slot validator parent fee txs))).header
unfolding prepare_candidate make_candidate
header_kept host now slot validator parent fee txs attestations h floor room =
    (gas_limit_kept parent h, room, floor)

module _ (host : Host) (now slot validator : ℕ) (parent : Block) (fee : ℕ) (txs : List Tx)
    (attestations : List Attestation) (hashing : IsHashing host) (time : oldest_timestamp ≤ now)
    (header : IsHeader parent.header) (floor : min_base_fee ≤ fee)
    (parent_named : parent.block_hash ≢ 0)
    (parent_formed : host.is_valid_block_hash parent.block_hash ≡ true)
    (payload : IsPayload host txs) (next : slot ≡ slot_of parent + 1) (n : Node)
    (consistent : IsAssigned n.proposals)
    (fresh : (s : ℕ) → slot < s → get s n.proposals.duties_by_slot ≡ none)
    (duty : get_proposal_by_slot slot n.proposals
      ≡ some (create_proposal_data slot validator)) where
  abbrev c : Candidate
  c = with_attestations attestations (make_candidate slot validator parent fee txs)

  abbrev fits' :
      validate_for_creation host.is_valid_block_hash now (candidate_fields host now c) ≡ []
  fits' =
      fits host hashing now time slot validator parent fee header floor parent_named parent_formed
        txs payload attestations

  abbrev b : Block
  b = prepare_candidate host now c

  named' : b.block_hash ≢ 0
  unfolding prepare_candidate
  named' = hashing.named now _ _

  formed' : host.is_valid_block_hash b.block_hash ≡ true
  unfolding prepare_candidate
  formed' = hashing.formed now _ _

  later' : slot ≢ 0
  later' e = omega (arith, e, next)

  committed_block : commit host now slot c n ≡ (ok (some b.block_hash), done host now c n)
  unfolding make_candidate create_proposal_data
  committed_block =
      commit_lem host now c n (create_proposal_data slot validator) fits' named' consistent later'
        duty refl refl

  done-IsAlive : IsAlive host b (done host now c n)
  unfolding make_candidate create_proposal_data prepare_candidate
  done-IsAlive = record {
    stored =
        done-tip host now c n (create_proposal_data slot validator) fits' named' consistent later'
          duty refl refl;
    header =
        header_kept host now slot validator parent fee txs attestations header floor payload.room;
    named = named';
    formed = formed';
    consistent =
        done-IsAssigned host now c n (create_proposal_data slot validator) fits' named' consistent
          later' duty refl refl;
    fresh = λ s lt.
        ap (get s) (
          done-duties host now c n (create_proposal_data slot validator) fits' named' consistent
            later' duty refl refl)
        ∙ fresh s lt;
  }

  done-Follows : Follows slot parent b b.block_hash (done host now c n)
  unfolding make_candidate create_proposal_data prepare_candidate
  done-Follows = record {
    named = refl;
    in_slot = refl;
    child = λ h e. ap (λ x. elim x as (λ _. Key) [ none ↦ 0 | some y ↦ y.parent_hash ]) (sym e);
    duty = (
      _,
      done-success host now c n (create_proposal_data slot validator) fits' named' consistent later'
          duty refl refl,
      refl,
      refl,
    );
  }

-- A proposal that brings the next block.
abbrev pub Advances : Host → ℕ → Block → Result (Option Key) × Node → Type 0
Advances host slot tip out =
    (hash : Key) × (b : Block) × (out.0 ≡ ok (some hash))
    × IsAlive host b out.1
    × Follows slot tip b hash out.1

fresh-add_duty :
    (slot validator : ℕ) (n : Node) (s : ℕ)
    → slot < s
    → get s n.proposals.duties_by_slot ≡ none
    → get s (add_duty slot validator n.proposals).duties_by_slot ≡ none
fresh-add_duty slot validator n s lt e =
    ground (arith, index-add_duty slot validator s n.proposals, e)

pub IsReady-of :
    {host : Host} {tip : Block} {n : Node} (validator fee : ℕ)
    → IsAlive host tip n
    → IsStaked validator n.registry
    → next_base_fee tip.header ≡ some fee
    → IsReady validator (slot_of tip + 1) tip fee n
IsReady-of {tip = tip} {n = n} validator fee alive staked fee_eq = record {
  consistent = alive.consistent;
  known = is_known_of validator n.registry staked;
  free = alive.fresh (slot_of tip + 1) (omega arith);
  tip = alive.stored;
  base_fee = fee_eq;
}

-- On a chain that can go on, the slot after the tip brings a block, if its proposer is an active
-- validator with the stake, the pending transactions are acceptable and fit into a block, and there
-- is a transaction or a waiting attestation. The block is the new tip, is of that slot, names the
-- old tip as its parent, its duty is marked as a success, and the chain can go on.
pub propose_block_for_slot-Advances :
    (host : Host) (now epoch v : ℕ) (vs : List ℕ) (validator : ℕ) (tip : Block) (n : Node)
    → IsHashing host
    → oldest_timestamp ≤ now
    → IsAlive host tip n
    → get_elem? (v ∷ vs) ((slot_of tip + 1) % length (v ∷ vs)) ≡ some validator
    → IsStaked validator n.registry
    → IsPayload host (pending host n)
    → HasContent (waiting_attestations epoch n.duties) (pending host n)
    → Advances host
        (slot_of tip + 1)
        tip
        (propose_block_for_slot host now (slot_of tip + 1) epoch (v ∷ vs) n)
propose_block_for_slot-Advances host now epoch v vs validator tip n hashing time alive chosen staked
      payload content =
    let slot = slot_of tip + 1 in
    let (fee, fee_eq, floor) = next_fee tip.header alive.header in
    let r = IsReady-of validator fee alive staked fee_eq in
    let attestations = take (length (v ∷ vs)) (waiting_attestations epoch n.duties) in
    let n' =
      emptied host now epoch (length (v ∷ vs)) validator slot tip fee n r refl staked
        payload.acceptable content in
    let consistent = add_duty-IsAssigned slot validator n.proposals alive.consistent r.free in
    let fresh = λ (s : ℕ) (lt : slot < s).
      fresh-add_duty slot validator n s lt (alive.fresh s (omega arith)) in
    let q =
      propose-by host now slot epoch v vs validator n chosen
      ∙ propose_by-commits host now epoch (length (v ∷ vs)) validator slot tip fee n r refl staked
          payload.acceptable content
      ∙ committed_block host now slot validator tip fee (pending host n) attestations hashing time
          alive.header floor alive.named alive.formed payload refl n' consistent fresh
          (duty_of r) in
    subst (Advances host slot tip) (sym q) (
      _,
      _,
      refl,
      done-IsAlive host now slot validator tip fee (pending host n) attestations hashing time
          alive.header floor alive.named alive.formed payload refl n' consistent fresh (duty_of r),
      done-Follows host now slot validator tip fee (pending host n) attestations hashing time
          alive.header floor alive.named alive.formed payload refl n' consistent fresh (duty_of r),
    )
