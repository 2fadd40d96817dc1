-- ===== src/Consensus/Stuck.antt =====
-- When the loop cannot go on.
use mathlib.Core.Path.{subst}
use bachi_coin.Prelude.{
  ℕ, zero, suc, ◌+◌, ◌*◌, ◌%◌, ◌<◌, ◌/◌, ◌≡◌, ◌≢◌, ◌⊎◌, refl, sym, ap, ◌∙◌, true, none, some, List,
  [], ◌∷◌, arith, length, get_elem?, inl, inr, Bool-cases, Option-cases, ◌==◌,
}
use bachi_coin.Dict.{Key, contains}
use bachi_coin.Exec.{Result, ok, err, assertion_failed, pure, bind_ok, bind_err, ◌>>=◌}
use bachi_coin.Block.{Block, Attestation, slot_of}
use bachi_coin.BlockIndex.{BlockStore, get_chain_tip}
use bachi_coin.Validator.{get_active_validators}
use bachi_coin.Attestor.{
  Duties, slots_per_epoch, get_attestations_for_epoch, assign_attestation_duties_for_epoch,
  assign_slots,
}
use bachi_coin.Proposer.{assign_proposal_duty}
use bachi_coin.Proposer.Assigned.{assign_proposal_duty-again}
use bachi_coin.Node.{Host, Node, on_proposals}
use bachi_coin.Consensus.{
  propose_by, propose_block_for_slot, genesis_header, propose_assigned, initialize_chain_if_needed,
  ensure_genesis,
}
use bachi_coin.Consensus.Loop.{
  ensure_duties, run_active, after_proposal, with_duties, assign_missing, run_proposal, run_slot,
  run_slots, run_consensus,
}

-- The slot after the chain's tip has a duty.
pub record IsStuck (n : Node) : Type 0 where
  pub tip : Block
  pub stored : get_chain_tip n.blocks ≡ some tip
  pub begun : n.blocks.chain_height ≢ none
  pub taken : contains (slot_of tip + 1) n.proposals.duties_by_slot ≡ true

get_elem?-lt {ℓ} :
    {A : Type ℓ} (xs : List A) (i : ℕ) → i < length xs → (x : A) × (get_elem? xs i ≡ some x)
get_elem?-lt [] i h = absurd (omega arith)
get_elem?-lt (x ∷ xs) zero h = (x, refl)
get_elem?-lt (x ∷ xs) (suc i) h = get_elem?-lt xs i (omega arith)

-- What the duties of an epoch change, and how they fail.
data Ensured (n : Node) (out : Result (Unit {0}) × Node) : Type 0 where
  given : (d : Duties) → out ≡ (ok tt, record n { duties = d }) → Ensured n out
  refused : out ≡ (err assertion_failed, n) → Ensured n out

assign_duties_cases :
    (active : List ℕ) (epoch : ℕ) (d : Duties)
    → ((d' : Duties) × (ids : List (ℕ × ℕ)) × (assign_attestation_duties_for_epoch active epoch d
          ≡ (ok ids, d')))
      ⊎ (assign_attestation_duties_for_epoch active epoch d ≡ (err assertion_failed, d))
unfolding assign_attestation_duties_for_epoch
assign_duties_cases active epoch d = elim (Bool-cases (length active == 0)) [
  | inl e ↦ inr (rw e refl)
  | inr e ↦ elim (Bool-cases (contains epoch d.duties_by_epoch)) [
    | inl f ↦ inr (rw (e, f) refl)
    | inr f ↦ inl (
      (assign_slots slots_per_epoch (epoch * slots_per_epoch) epoch active ([], d)).1,
      (assign_slots slots_per_epoch (epoch * slots_per_epoch) epoch active ([], d)).0,
      rw (e, f) refl,
    )
  ]
]

module _ (host : Host) (now slot epoch : ℕ) (n : Node)
    (taken : contains slot n.proposals.duties_by_slot ≡ true) where
  propose_by-refused :
      (count validator : ℕ)
      → propose_by host now slot epoch count validator n ≡ (err assertion_failed, n)
  unfolding propose_by
  propose_by-refused count validator =
      bind_err (on_proposals (assign_proposal_duty slot validator))
        (propose_assigned host now slot epoch count) assertion_failed n n
        (ap (λ r. (r.0, record n { proposals = r.1 }))
          (assign_proposal_duty-again slot validator n.registry n.proposals taken))

  propose-refused :
      (v : ℕ) (vs : List ℕ)
      → propose_block_for_slot host now slot epoch (v ∷ vs) n ≡ (err assertion_failed, n)
  unfolding propose_block_for_slot
  propose-refused v vs =
      let (validator, e) = get_elem?-lt (v ∷ vs) (slot % length (v ∷ vs)) (omega arith) in
      rw e (propose_by-refused (length (v ∷ vs)) validator)

run_proposal-refused :
    (host : Host) (now slot : ℕ) (v : ℕ) (vs : List ℕ) (n : Node)
    → contains slot n.proposals.duties_by_slot ≡ true
    → run_proposal host now slot (v ∷ vs) n ≡ (err assertion_failed, n)
unfolding run_proposal
run_proposal-refused host now slot v vs n taken =
    bind_err (propose_block_for_slot host now slot (slot / slots_per_epoch) (v ∷ vs))
      (after_proposal host slot) assertion_failed n n
      (propose-refused host now slot (slot / slots_per_epoch) n taken v vs)

assign_missing_cases :
    (epoch : ℕ) (as' : List Attestation) (n : Node) → Ensured n (assign_missing epoch as' n)
unfolding assign_missing
assign_missing_cases epoch (a ∷ as') n = given n.duties refl
assign_missing_cases epoch [] n =
    elim (assign_duties_cases (get_active_validators n.registry) epoch n.duties) [
      | inl (d', ids, f) ↦ given d' (ap (with_duties n) f)
      | inr f ↦ refused (ap (with_duties n) f)
    ]

ensure_duties_cases : (epoch : ℕ) (n : Node) → Ensured n (ensure_duties epoch n)
unfolding ensure_duties
ensure_duties_cases epoch n =
    assign_missing_cases epoch (get_attestations_for_epoch epoch n.duties) n

-- A run that fails and leaves the chain stuck.
abbrev pub Halts : {A : Type 0} → Result A × Node → Type 0
Halts out = (out.0 ≡ err assertion_failed) × IsStuck out.1

IsStuck-duties : (d : Duties) {n : Node} → IsStuck n → IsStuck (record n { duties = d })
IsStuck-duties d h = record { tip = h.tip; stored = h.stored; begun = h.begun; taken = h.taken }

Halts-of :
    {A : Type 0} {out : Result A × Node} (n : Node)
    → IsStuck n
    → out ≡ (err assertion_failed, n)
    → Halts out
Halts-of n h e = (ap (λ o. o.0) e, subst IsStuck (sym (ap (λ o. o.1) e)) h)

run_slot-Halts :
    (host : Host) (now v : ℕ) (vs : List ℕ) (n : Node) (h : IsStuck n)
    → Halts (run_slot host now (v ∷ vs) h.tip n)
unfolding run_slot
run_slot-Halts host now v vs n h =
    go (ensure_duties_cases ((slot_of h.tip + 1) / slots_per_epoch) n)
  where
    go :
        Ensured n (ensure_duties ((slot_of h.tip + 1) / slots_per_epoch) n)
        → Halts (run_slot host now (v ∷ vs) h.tip n)
    go (given d e) =
        Halts-of (record n { duties = d }) (IsStuck-duties d h)
          (bind_ok (ensure_duties ((slot_of h.tip + 1) / slots_per_epoch))
              (λ _. run_proposal host now (slot_of h.tip + 1) (v ∷ vs)) tt n
              (record n { duties = d }) e
            ∙ run_proposal-refused host now (slot_of h.tip + 1) v vs (record n { duties = d })
                h.taken)
    go (refused e) = Halts-of n h (
        bind_err (ensure_duties ((slot_of h.tip + 1) / slots_per_epoch))
          (λ _. run_proposal host now (slot_of h.tip + 1) (v ∷ vs)) assertion_failed n n e)

ensure_genesis_begun :
    (hash : Key) (s : BlockStore) → s.chain_height ≢ none → ensure_genesis hash s ≡ s
unfolding ensure_genesis
ensure_genesis_begun hash s h = elim (Option-cases s.chain_height) [
  | inl e ↦ absurd (h e)
  | inr (k, e) ↦ rw e refl
]

initialize-stuck :
    (host : Host) (now : ℕ) (n : Node) (h : IsStuck n)
    → initialize_chain_if_needed host now n ≡ (ok h.tip, n)
unfolding initialize_chain_if_needed
initialize-stuck host now n h =
    rw
      (
        ensure_genesis_begun (host.generate_block_hash now genesis_header []) n.blocks h.begun,
        h.stored,
      )
      refl

run_slots-Halts :
    (host : Host) (now : ℕ) (times : List ℕ) (v : ℕ) (vs : List ℕ) (n : Node) (h : IsStuck n)
    → Halts (run_slots host (now ∷ times) (v ∷ vs) (some h.tip) n)
unfolding run_slots
run_slots-Halts host now times v vs n h =
    let halts = run_slot-Halts host now v vs n h in
    let n' = (run_slot host now (v ∷ vs) h.tip n).1 in
    Halts-of n' halts.1 (
      bind_err (run_slot host now (v ∷ vs) h.tip)
        (λ r. run_slots host times (v ∷ vs) r.1 >>= λ rest. pure (r.0 ∷ rest)) assertion_failed n n'
        (ap (λ r. (r, n')) halts.0))

run_active-Halts :
    (host : Host) (now : ℕ) (times active : List ℕ) (n : Node) (h : IsStuck n)
    → Halts (run_active host (now ∷ times) h.tip active n)
unfolding run_active
run_active-Halts host now times [] n h = (refl, h)
run_active-Halts host now times (v ∷ vs) n h = run_slots-Halts host now times v vs n h

-- Where the slot after the tip has a duty, each run of the loop for one slot or more raises, and
-- leaves the chain in the same position, so that every later run raises too.
pub run_consensus-Halts :
    (host : Host) (start now : ℕ) (times : List ℕ) (n : Node)
    → IsStuck n
    → Halts (run_consensus host start (now ∷ times) n)
unfolding run_consensus
run_consensus-Halts host start now times n h =
    subst Halts
      (sym (
        bind_ok (initialize_chain_if_needed host start)
          (λ tip m. run_active host (now ∷ times) tip (get_active_validators m.registry) m) h.tip n
          n (initialize-stuck host start n h)))
      (run_active-Halts host now times (get_active_validators n.registry) n h)
