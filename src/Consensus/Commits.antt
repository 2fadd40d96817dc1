-- ===== src/Consensus/Commits.antt =====
-- What the commit of a candidate leaves.
use bachi_coin.Prelude.{ℕ, ◌≡◌, ◌≢◌, refl, sym, ap, ◌∙◌, false, some, [], arith, ◌==◌}
use bachi_coin.Dict.{Key, Dict, get, put, get-put}
use bachi_coin.Exec.{ok, pure, bind_ok, ◌>>=◌}
use bachi_coin.Block.{Block, Header}
use bachi_coin.BlockIndex.{BlockStore, get_chain_tip, set_chain_tip, create_block_with_index}
use bachi_coin.BlockCheck.{validate_for_creation, has_errors}
use bachi_coin.Proposer.{
  proposal_success, Proposals, Proposal, id_of, load_proposal, save_proposal, get_proposal_by_slot,
  update_proposal_status_after_commit, mark_at, mark_committed, committed, update_proposal_status,
}
use bachi_coin.Proposer.Assigned.{IsAssigned, get_proposal-load, load-save}
use bachi_coin.Proposer.Updated.{
  update_proposal_status-found, update_proposal_status_after_commit-IsAssigned,
}
use bachi_coin.Fee.{calculate_gas_used}
use bachi_coin.Node.{Host, Node, on_blocks}
use bachi_coin.Candidate.{Candidate, create_candidate, prepare_candidate, candidate_fields}
use bachi_coin.Consensus.{get_block, commit, settle_tip, mark_and_confirm, confirm, assert_success}

module _ (b : Block) (h : Header) (header : b.header ≡ some h) (s : Proposals)
    (assigned : IsAssigned s) (p : Proposal) (later : h.slot ≢ 0)
    (duty : get_proposal_by_slot h.slot s ≡ some p) (same : p.slot ≡ h.slot)
    (epoch : p.epoch ≡ (id_of h.slot).0) where
  -- The proposals once the block of the slot is committed.
  abbrev pub marked : Proposals
  marked = save_proposal (id_of h.slot) (record (committed b p) { status = proposal_success }) s

  mark_committed-marked : (mark_committed h.slot b (some p) s).1 ≡ marked
  unfolding mark_committed
  mark_committed-marked =
      let id : ◌≡◌ {A = ℕ × ℕ} (p.epoch, p.slot) (id_of h.slot) = λ i. (epoch i, same i) in
      let loaded = sym (get_proposal-load h.slot s assigned) ∙ duty in
      let nonzero : (h.slot == 0) ≡ false = ground (arith, later) in
      rw nonzero (
        ap (λ n. (update_proposal_status n proposal_success (committed b) s).1) id
        ∙ ap (λ r. r.1)
            (update_proposal_status-found (id_of h.slot) proposal_success (committed b) s p loaded))

  marked_lem : (update_proposal_status_after_commit b s).1 ≡ marked
  unfolding update_proposal_status_after_commit mark_at
  marked_lem =
      ap (λ x. (mark_at b x s).1) header
      ∙ ap (λ d. (mark_committed h.slot b d s).1) duty
      ∙ mark_committed-marked

  marked-success :
      get_proposal_by_slot h.slot (update_proposal_status_after_commit b s).1
      ≡ some (record (committed b p) { status = proposal_success })
  marked-success =
      get_proposal-load h.slot _ (update_proposal_status_after_commit-IsAssigned b s assigned)
      ∙ ap (load_proposal (id_of h.slot)) marked_lem
      ∙ load-save (id_of h.slot) (id_of h.slot)
          (record (committed b p) { status = proposal_success }) s
      ∙ ground arith

get-put_self {ℓ} : {V : Type ℓ} (k : Key) (v : V) (d : Dict V) → get k (put k v d) ≡ some v
get-put_self k v d = get-put k k v d ∙ ground arith

get_block-stored :
    (hash : Key) (b : Block) (s : BlockStore)
    → hash ≢ 0
    → get hash s.records ≡ some b
    → get_block hash s ≡ (ok (some b), s)
get_block-stored hash b s named e = ground (arith, named, e)

module _ (host : Host) (now : ℕ) (c : Candidate) (n : Node) where
  -- The prepared block of a candidate.
  abbrev pub new_block : Block
  new_block = prepare_candidate host now c

  -- The node after the commit.
  abbrev pub stored : Node
  stored = record n { blocks = (create_block_with_index new_block n.blocks).1 }

  abbrev pub tipped : Node
  tipped = record n { blocks = set_chain_tip new_block.block_hash c.header.height stored.blocks }

  abbrev pub done : Node
  done = record tipped { proposals = (update_proposal_status_after_commit new_block n.proposals).1 }

module _ (host : Host) (now : ℕ) (c : Candidate) (n : Node) (p : Proposal)
    (fits : validate_for_creation host.is_valid_block_hash now (candidate_fields host now c) ≡ [])
    (named : (prepare_candidate host now c).block_hash ≢ 0) (assigned : IsAssigned n.proposals)
    (later : c.header.slot ≢ 0) (duty : get_proposal_by_slot c.header.slot n.proposals ≡ some p)
    (same : p.slot ≡ c.header.slot) (epoch : p.epoch ≡ (id_of c.header.slot).0) where
  created :
      on_blocks (create_candidate host now c) n
      ≡ (ok (new_block host now c n).block_hash, (stored host now c n))
  unfolding create_candidate
  created = rw (ap has_errors fits) refl

  found :
      on_blocks (get_block (new_block host now c n).block_hash) (tipped host now c n)
      ≡ (ok (some (new_block host now c n)), (tipped host now c n))
  unfolding create_block_with_index set_chain_tip
  found =
      ap (λ r. (r.0, record (tipped host now c n) { blocks = r.1 }))
        (get_block-stored (new_block host now c n).block_hash (new_block host now c n)
          (tipped host now c n).blocks named
          (get-put_self (new_block host now c n).block_hash (new_block host now c n)
            n.blocks.records))

  confirmed :
      confirm c.header.slot (new_block host now c n).block_hash (done host now c n)
      ≡ (ok (some (new_block host now c n).block_hash), (done host now c n))
  unfolding confirm
  confirmed =
      ap
        (λ d.
          (assert_success d >>= λ _. pure (some (new_block host now c n).block_hash))
            (done host now c n))
        (marked-success (new_block host now c n)
          (record c.header { gas_used = calculate_gas_used c.body.transactions })
          (unfold prepare_candidate in refl) n.proposals assigned p later duty same epoch)

  mark_confirms :
      mark_and_confirm c.header.slot
        (new_block host now c n).block_hash
        (some (new_block host now c n))
        (tipped host now c n)
      ≡ (ok (some (new_block host now c n).block_hash), (done host now c n))
  unfolding mark_and_confirm
  mark_confirms = confirmed

  pub commit_lem :
      commit host now c.header.slot c n
      ≡ (ok (some (new_block host now c n).block_hash), (done host now c n))
  unfolding commit settle_tip
  commit_lem =
      bind_ok (on_blocks (create_candidate host now c)) (settle_tip c.header.slot c.header.height)
        (new_block host now c n).block_hash n (stored host now c n) created
      ∙ bind_ok (on_blocks (get_block (new_block host now c n).block_hash))
          (mark_and_confirm c.header.slot (new_block host now c n).block_hash)
          (some (new_block host now c n)) (tipped host now c n) (tipped host now c n) found
      ∙ mark_confirms

  pub done-tip : get_chain_tip (done host now c n).blocks ≡ some (new_block host now c n)
  unfolding get_chain_tip set_chain_tip create_block_with_index
  done-tip =
      let nonzero : ((prepare_candidate host now c).block_hash == 0) ≡ false =
        ground (arith, named) in
      rw nonzero (
        get-put_self (prepare_candidate host now c).block_hash (prepare_candidate host now c)
          n.blocks.records)

  pub done-IsAssigned : IsAssigned (done host now c n).proposals
  done-IsAssigned =
      update_proposal_status_after_commit-IsAssigned (new_block host now c n) n.proposals assigned

  filled : Header
  filled = record c.header { gas_used = calculate_gas_used c.body.transactions }

  pub done-duties : (done host now c n).proposals.duties_by_slot ≡ n.proposals.duties_by_slot
  unfolding filled
  done-duties =
      ap (λ s. s.duties_by_slot)
        (marked_lem (new_block host now c n) filled (unfold prepare_candidate in refl) n.proposals
          assigned p later duty same epoch)
      ∙ unfold save_proposal in refl

  pub done-success :
      get_proposal_by_slot c.header.slot (done host now c n).proposals
      ≡ some (record (committed (new_block host now c n) p) { status = proposal_success })
  unfolding filled
  done-success =
      marked-success (new_block host now c n) filled (unfold prepare_candidate in refl) n.proposals
        assigned p later duty same epoch
