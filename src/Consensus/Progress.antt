-- ===== src/Consensus/Progress.antt =====
-- When a slot brings a block.
use bachi_coin.Prelude.{
  ℕ, ◌+◌, ◌≤◌, ◌≡◌, refl, ap, ◌∙◌, Option, none, some, List, [], ◌∷◌, arith, All,
}
use bachi_coin.Tx.{Tx}
use bachi_coin.TxCheck.{TxFormats}
use bachi_coin.TxCheck.Shape.{IsAcceptable, validate_transaction-IsAcceptable}
use bachi_coin.Block.{Block, Header, slot_of}
use bachi_coin.BlockIndex.{BlockStore, get_chain_tip}
use bachi_coin.Fee.{min_base_fee}
use bachi_coin.Fee.Bounds.{calculate_next_base_fee-NextFee}
use bachi_coin.Validator.{Registry, Validator, ValidatorStatus, get_validator, min_deposit_amount}
use bachi_coin.Candidate.{
  Candidate, default_gas_limit, tx_errors, after_parent, after_validator, validate_candidate_block,
  next_base_fee,
}

-- What a tip's header keeps, from block to block.
abbrev pub IsHeader : Option Header → Type 0
IsHeader none = Unit
IsHeader (some h) =
    (h.gas_limit ≡ default_gas_limit)
    × (h.gas_used ≤ default_gas_limit)
    × (min_base_fee ≤ h.base_fee_per_gas)

pub next_fee :
    (x : Option Header)
    → IsHeader x
    → (fee : ℕ) × (next_base_fee x ≡ some fee) × (min_base_fee ≤ fee)
unfolding next_base_fee
next_fee none _ =
    let (fee, e, bounds) =
      calculate_next_base_fee-NextFee 0 default_gas_limit min_base_fee (omega arith) (omega arith)
        (omega arith) in
    (fee, e, bounds.floor)
next_fee (some h) (limit, used, floor) =
    let (fee, e, bounds) =
      calculate_next_base_fee-NextFee h.gas_used h.gas_limit h.base_fee_per_gas (omega arith)
        (omega arith) floor in
    (fee, e, bounds.floor)

tx_errors-nil :
    (f : TxFormats) (txs : List Tx) → All (λ tx. IsAcceptable f tx) txs → tx_errors f txs ≡ []
unfolding tx_errors
tx_errors-nil f [] h = refl
tx_errors-nil f (tx ∷ txs) h =
    rw ((validate_transaction-IsAcceptable f tx).1 h.0) (tx_errors-nil f txs h.1)

-- A validator that may propose.
pub record IsStaked (i : ℕ) (r : Registry) : Type 0 where
  pub validator : Validator
  pub known : get_validator i r ≡ some validator
  pub ongoing : validator.status ≡ ValidatorStatus.active_ongoing
  pub stake : min_deposit_amount ≤ validator.effective_balance

module _ (f : TxFormats) (c : Candidate) (parent : Block)
    (next : c.header.slot ≡ slot_of parent + 1)
    (sound : All (λ tx. IsAcceptable f tx) c.body.transactions) where
  after_parent-nil : after_parent f c (some parent) ≡ []
  unfolding after_parent
  after_parent-nil = ground (arith, tx_errors-nil f c.body.transactions sound)

  after_validator-nil :
      (v : Validator)
      → v.status ≡ ValidatorStatus.active_ongoing
      → min_deposit_amount ≤ v.effective_balance
      → after_validator f c (some v) (some parent) ≡ []
  unfolding after_validator
  after_validator-nil v ongoing stake = ground (arith, after_parent-nil)

  pub candidate-nil :
      (r : Registry) (s : BlockStore)
      → IsStaked c.header.proposer_index r
      → get_chain_tip s ≡ some parent
      → validate_candidate_block f c r s ≡ []
  unfolding validate_candidate_block
  candidate-nil r s v tip =
      ap (λ x. after_validator f c x (get_chain_tip s)) v.known
      ∙ ap (λ x. after_validator f c (some v.validator) x) tip
      ∙ after_validator-nil v.validator v.ongoing v.stake
