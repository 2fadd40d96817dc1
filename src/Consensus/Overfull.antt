-- ===== src/Consensus/Overfull.antt =====
-- What more pending gas than a block's limit does to the chain.
use mathlib.Core.Path.{subst}
use bachi_coin.Prelude.{
  ℕ, ◌+◌, ◌%◌, ◌<◌, ◌≡◌, ◌≢◌, refl, sym, ap, ◌∙◌, true, none, some, List, [], ◌∷◌, arith, length,
  take, get_elem?, All, inr,
}
use bachi_coin.Exec.{err, assertion_failed, bind_err}
use bachi_coin.Tx.{Tx}
use bachi_coin.TxCheck.Shape.{IsAcceptable}
use bachi_coin.Block.{Block, Attestation, slot_of}
use bachi_coin.BlockCheck.{BlockError, has_errors, validate_for_creation}
use bachi_coin.BlockCheck.Creatable.{validate_for_creation-IsCreatable}
use bachi_coin.Fee.{calculate_gas_used}
use bachi_coin.Node.{Host, Node, on_blocks}
use bachi_coin.Candidate.{
  Candidate, default_gas_limit, make_candidate, candidate_fields, create_candidate,
}
use bachi_coin.Candidate.Built.{pending, after_reading, removed}
use bachi_coin.Consensus.{
  waiting_attestations, with_attestations, commit, settle_tip, propose_block_for_slot,
}
use bachi_coin.Consensus.Progress.{IsHeader, IsStaked, next_fee}
use bachi_coin.Consensus.Stuck.{IsStuck}
use bachi_coin.Consensus.Failed.{assigned-IsStuck, propose-by}
use bachi_coin.Consensus.Offered.{HasContent, emptied, propose_by-commits, gas_limit_kept}
use bachi_coin.Consensus.Advances.{IsAlive, IsReady-of}

has_errors-ne-nil : (es : List BlockError) → es ≢ [] → has_errors es ≡ true
has_errors-ne-nil [] h = absurd (h refl)
has_errors-ne-nil (e ∷ es) h = refl

module _ (host : Host) (now slot : ℕ) (c : Candidate) (n : Node)
    (refused : validate_for_creation host.is_valid_block_hash now (candidate_fields host now c)
      ≢ []) where
  create-refused : on_blocks (create_candidate host now c) n ≡ (err assertion_failed, n)
  unfolding create_candidate
  create-refused =
      rw
        (has_errors-ne-nil
          (validate_for_creation host.is_valid_block_hash now (candidate_fields host now c))
          refused)
        refl

  commit-refused : commit host now slot c n ≡ (err assertion_failed, n)
  unfolding commit
  commit-refused =
      bind_err (on_blocks (create_candidate host now c)) (settle_tip slot c.header.height)
        assertion_failed n n create-refused

overfull-refused :
    (host : Host) (now slot validator : ℕ) (parent : Block) (fee : ℕ) (txs : List Tx)
    (attestations : List Attestation)
    → IsHeader parent.header
    → default_gas_limit < calculate_gas_used txs
    → validate_for_creation host.is_valid_block_hash now (
        candidate_fields host now
          (with_attestations attestations (make_candidate slot validator parent fee txs)))
      ≢ []
unfolding candidate_fields make_candidate
overfull-refused host now slot validator parent fee txs attestations header over e =
    let ok_fields =
      (validate_for_creation-IsCreatable host.is_valid_block_hash now (
          candidate_fields host now
            (with_attestations attestations (make_candidate slot validator parent fee txs)))).0
        e in
    omega (arith, ok_fields.gas_fits, gas_limit_kept parent header)

content_of_gas :
    (waiting : List Attestation) (txs : List Tx)
    → 0 < calculate_gas_used txs
    → HasContent waiting txs
unfolding calculate_gas_used
content_of_gas waiting [] h = absurd (omega arith)
content_of_gas waiting (tx ∷ txs) h = inr (λ e. cc)

-- Let a chain be able to go on, its proposer be an active validator with the stake, and the pending
-- transactions be acceptable. If they use more gas together than a block may, the proposal raises;
-- its transactions are removed from the pool all the same, and the chain is stuck.
pub propose_block_for_slot-overfull :
    (host : Host) (now epoch v : ℕ) (vs : List ℕ) (validator : ℕ) (tip : Block) (n : Node)
    → IsAlive host tip n
    → n.blocks.chain_height ≢ none
    → get_elem? (v ∷ vs) ((slot_of tip + 1) % length (v ∷ vs)) ≡ some validator
    → IsStaked validator n.registry
    → All (λ tx. IsAcceptable host.tx_formats tx) (pending host n)
    → default_gas_limit < calculate_gas_used (pending host n)
    → let out = propose_block_for_slot host now (slot_of tip + 1) epoch (v ∷ vs) n in
      (out.0 ≡ err assertion_failed)
      × (out.1.pool ≡ removed (pending host n) (after_reading host n).pool)
      × IsStuck out.1
propose_block_for_slot-overfull host now epoch v vs validator tip n alive begun chosen staked
      acceptable over =
    let slot = slot_of tip + 1 in
    let (fee, fee_eq, floor) = next_fee tip.header alive.header in
    let r = IsReady-of validator fee alive staked fee_eq in
    let count = length (v ∷ vs) in
    let waiting = waiting_attestations epoch n.duties in
    let content = content_of_gas waiting (pending host n) (omega (arith, over)) in
    let n' =
      emptied host now epoch count validator slot tip fee n r refl staked acceptable content in
    let c =
      with_attestations (take count waiting)
        (make_candidate slot validator tip fee (pending host n)) in
    let q =
      propose-by host now slot epoch v vs validator n chosen
      ∙ propose_by-commits host now epoch count validator slot tip fee n r refl staked acceptable
          content
      ∙ commit-refused host now slot c n' (
          overfull-refused host now slot validator tip fee (pending host n) (take count waiting)
            alive.header over) in
    let stuck = assigned-IsStuck slot validator host n tip alive.stored begun refl in
    (
      ap (λ o. o.0) q,
      ap (λ o. o.1.pool) q,
      subst IsStuck (sym (ap (λ o. o.1) q)) (record {
        tip = stuck.tip;
        stored = stuck.stored;
        begun = stuck.begun;
        taken = stuck.taken;
      }),
    )
