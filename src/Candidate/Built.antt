-- ===== src/Candidate/Built.antt =====
-- What a candidate block is built from.
use bachi_coin.Prelude.{
  ℕ, ◌≡◌, ◌≢◌, refl, ap, ◌∙◌, Bool, true, not, Option, none, some, List, [], ◌∷◌, ◌++◌, map, any_of,
  inl, inr, Bool-cases,
}
use bachi_coin.Exec.{ok, pure, bind_ok}
use bachi_coin.Tx.{Tx}
use bachi_coin.TxCheck.{TxFormats, validate_transaction}
use bachi_coin.Block.{Block}
use bachi_coin.BlockIndex.{BlockStore, get_chain_tip}
use bachi_coin.Mempool.{Pool, get_pending_transactions}
use bachi_coin.Validator.{Registry, Validator, get_validator}
use bachi_coin.Proposer.{ProposerStatus, Proposal, get_proposal_by_slot}
use bachi_coin.Node.{Host, Node}
use bachi_coin.Candidate.{
  Candidate, CandidateError, is_valid_tx, tx_errors, after_parent, after_validator,
  validate_candidate_block, next_base_fee, make_candidate, settle, remove_pending, remove_hashed,
  take_valid, build_on, build_for, build_at, build_candidate_block,
}

-- The pending transactions of a node, in the order of their scores, and the pool after reading.
abbrev pub pending : Host → Node → List Tx
pending host n = map (λ e. e.tx) (get_pending_transactions host.score none n.pool).0

abbrev pub after_reading : Host → Node → Node
after_reading host n = record n { pool = (get_pending_transactions host.score none n.pool).1 }

module _ (host : Host) (slot : ℕ) (p : Proposal) (parent : Block) (fee : ℕ) (n : Node)
    (duty : get_proposal_by_slot slot n.proposals ≡ some p)
    (awaiting : p.status ≡ ProposerStatus.awaiting_duty)
    (tip : get_chain_tip n.blocks ≡ some parent)
    (base_fee : next_base_fee parent.header ≡ some fee) where
  build_on_lem :
      build_on host slot p parent n
      ≡ take_valid host
          (make_candidate slot p.validator_index parent fee (pending host n))
          (after_reading host n)
  unfolding build_on
  build_on_lem = rw base_fee

  build_for_lem :
      build_for host slot p ProposerStatus.awaiting_duty n ≡ build_on host slot p parent n
  unfolding build_for
  build_for_lem = rw tip

  build_lem :
      build_candidate_block host slot n
      ≡ take_valid host
          (make_candidate slot p.validator_index parent fee (pending host n))
          (after_reading host n)
  unfolding build_candidate_block build_at
  build_lem =
      ap (λ d. build_at host slot d n) duty
      ∙ ap (λ st. build_for host slot p st n) awaiting
      ∙ build_for_lem
      ∙ build_on_lem

append-ne-nil {ℓ} : {A : Type ℓ} (xs ys : List A) → ys ≢ [] → xs ++ ys ≢ []
append-ne-nil [] ys h = h
append-ne-nil (x ∷ xs) ys h = λ e. cc

abbrev pub has_invalid : TxFormats → List Tx → Bool
has_invalid f txs = any_of (λ tx. not (is_valid_tx (validate_transaction f tx))) txs

tx_errors-ne-nil : (f : TxFormats) (txs : List Tx) → has_invalid f txs ≡ true → tx_errors f txs ≢ []
unfolding tx_errors
tx_errors-ne-nil f [] h = cc
tx_errors-ne-nil f (tx ∷ txs) h = elim (Bool-cases (is_valid_tx (validate_transaction f tx))) [
  | inl valid ↦ rw valid (tx_errors-ne-nil f txs (rw valid at h))
  | inr invalid ↦ rw invalid (λ e. cc)
]

module _ (f : TxFormats) (c : Candidate) (invalid : has_invalid f c.body.transactions ≡ true) where
  after_parent-ne-nil : (tip : Option Block) → after_parent f c tip ≢ []
  unfolding after_parent
  after_parent-ne-nil none = λ e. cc
  after_parent-ne-nil (some b) = append-ne-nil _ _ (tx_errors-ne-nil f c.body.transactions invalid)

  after_validator-ne-nil :
      (v : Option Validator) (tip : Option Block) → after_validator f c v tip ≢ []
  unfolding after_validator
  after_validator-ne-nil none tip = λ e. cc
  after_validator-ne-nil (some v) tip = append-ne-nil _ _ (after_parent-ne-nil tip)

  invalid-has_errors : (r : Registry) (s : BlockStore) → validate_candidate_block f c r s ≢ []
  unfolding validate_candidate_block
  invalid-has_errors r s =
      after_validator-ne-nil (get_validator c.header.proposer_index r) (get_chain_tip s)

settle-drops :
    (c : Candidate) (es : List CandidateError) (n : Node) → es ≢ [] → settle c es n ≡ (ok none, n)
unfolding settle
settle-drops c [] n h = absurd (h refl)
settle-drops c (e ∷ es) n h = refl

-- The pool without the transactions of a list; a transaction with no hash is left.
pub removed : List Tx → Pool → Pool
removed [] s = s
removed (tx ∷ txs) s = removed txs (remove_hashed tx s)

remove_pending-removed :
    (txs : List Tx) (n : Node)
    → remove_pending txs n ≡ (ok tt, record n { pool = removed txs n.pool })
unfolding remove_pending removed
remove_pending-removed [] n = refl
remove_pending-removed (tx ∷ txs) n =
    remove_pending-removed txs (record n { pool = remove_hashed tx n.pool })

settle-keeps :
    (c : Candidate) (n : Node)
    → settle c [] n ≡ (ok (some c), record n { pool = removed c.body.transactions n.pool })
unfolding settle
settle-keeps c n =
    bind_ok (remove_pending c.body.transactions) (λ _. pure (some c)) tt n
      (record n { pool = removed c.body.transactions n.pool })
      (remove_pending-removed c.body.transactions n)

module _ (host : Host) (slot : ℕ) (p : Proposal) (parent : Block) (fee : ℕ) (n : Node)
    (duty : get_proposal_by_slot slot n.proposals ≡ some p)
    (awaiting : p.status ≡ ProposerStatus.awaiting_duty)
    (tip : get_chain_tip n.blocks ≡ some parent)
    (base_fee : next_base_fee parent.header ≡ some fee) where
  abbrev pub built : Candidate
  built = make_candidate slot p.validator_index parent fee (pending host n)

  -- If a pending transaction fails its rules there is no candidate, and the pool is only read.
  pub build_candidate_block-drops :
      has_invalid host.tx_formats (pending host n) ≡ true
      → build_candidate_block host slot n ≡ (ok none, after_reading host n)
  unfolding make_candidate take_valid
  build_candidate_block-drops invalid =
      build_lem host slot p parent fee n duty awaiting tip base_fee
      ∙ settle-drops built (validate_candidate_block host.tx_formats built n.registry n.blocks)
          (after_reading host n)
          (invalid-has_errors host.tx_formats built invalid n.registry n.blocks)

  pub build_candidate_block-keeps :
      validate_candidate_block host.tx_formats built n.registry n.blocks ≡ []
      → build_candidate_block host slot n ≡ (
        ok (some built),
        record n { pool = removed (pending host n) (after_reading host n).pool },
      )
  unfolding make_candidate take_valid
  build_candidate_block-keeps valid =
      build_lem host slot p parent fee n duty awaiting tip base_fee
      ∙ ap (λ es. settle built es (after_reading host n)) valid
      ∙ settle-keeps built (after_reading host n)
