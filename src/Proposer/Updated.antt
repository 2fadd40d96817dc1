-- ===== src/Proposer/Updated.antt =====
-- What the updates of proposal duties keep of their index.
use bachi_coin.Prelude.{
  ℕ, ◌≡◌, refl, sym, ◌∙◌, ap, Bool, true, false, Option, none, some, arith, inl, inr, ◌==◌,
  Bool-cases, Option-cases,
}
use bachi_coin.Dict.{get}
use bachi_coin.Block.{Block, Header}
use bachi_coin.Proposer.{
  mark_at, ProposerStatus, proposal_success, Proposal, Proposals, id_of, load_proposal,
  save_proposal, get_proposal_by_slot, update_proposal_status, mark_committed, committed,
  update_proposal_status_after_commit,
}
use bachi_coin.Proposer.Assigned.{Matches, IsAssigned, same_id, load-save}

-- What an update leaves of the fields that it may not change.
abbrev pub Keeps : (Proposal → Proposal) → Type 0
Keeps payload = (p : Proposal) → ((payload p).slot ≡ p.slot) × ((payload p).epoch ≡ p.epoch)

update-Matches :
    (j : ℕ) (i : Option (ℕ × ℕ)) (p : Proposal) (status : ProposerStatus)
    (payload : Proposal → Proposal)
    → Keeps payload
    → Matches j i (some p)
    → Matches j i (some (record (payload p) { status = status }))
update-Matches j none p status payload keeps m = m
update-Matches j (some id) p status payload keeps (a, b, c) = (a, (keeps p).0 ∙ b, (keeps p).1 ∙ c)

same_id-eq : (id other : ℕ × ℕ) → same_id id other ≡ true → id ≡ other
same_id-eq (e, i) (e', i') h = ground arith

save-Matches :
    (id : ℕ × ℕ) (p : Proposal) (status : ProposerStatus) (payload : Proposal → Proposal)
    (s : Proposals)
    → Keeps payload
    → load_proposal id s ≡ some p
    → (j : ℕ) → Matches j (get j s.duties_by_slot) (load_proposal (id_of j) s)
    → Matches j
        (get j s.duties_by_slot)
        (load_proposal (id_of j) (save_proposal id (record (payload p) { status = status }) s))
save-Matches id p status payload s keeps e j h = elim (Bool-cases (same_id id (id_of j))) [
  | inl here ↦
      let old : load_proposal (id_of j) s ≡ some p =
        ap (λ n. load_proposal n s) (sym (same_id-eq id (id_of j) here)) ∙ e in
      rw (load-save id (id_of j), here)
        (update-Matches j (get j s.duties_by_slot) p status payload keeps (rw old at h))
  | inr other ↦ rw (load-save id (id_of j), other) h
]

save-IsAssigned :
    (id : ℕ × ℕ) (p : Proposal) (status : ProposerStatus) (payload : Proposal → Proposal)
    (s : Proposals)
    → Keeps payload
    → load_proposal id s ≡ some p
    → IsAssigned s
    → IsAssigned (save_proposal id (record (payload p) { status = status }) s)
save-IsAssigned id p status payload s keeps e h = record {
  matches = λ j. unfold save_proposal in save-Matches id p status payload s keeps e j (h.matches j);
  counted = unfold save_proposal in h.counted;
}

pub update_proposal_status-found :
    (id : ℕ × ℕ) (status : ProposerStatus) (payload : Proposal → Proposal) (s : Proposals)
    (p : Proposal)
    → load_proposal id s ≡ some p
    → update_proposal_status id status payload s
      ≡ (true, save_proposal id (record (payload p) { status = status }) s)
unfolding update_proposal_status
update_proposal_status-found id status payload s p e =
    ap
      (λ o. elim o as (λ _. Bool × Proposals) [
        | none ↦ (false, s)
        | some q ↦ (true, save_proposal id (record (payload q) { status = status }) s)
      ])
      e

update_proposal_status-missing :
    (id : ℕ × ℕ) (status : ProposerStatus) (payload : Proposal → Proposal) (s : Proposals)
    → load_proposal id s ≡ none
    → update_proposal_status id status payload s ≡ (false, s)
unfolding update_proposal_status
update_proposal_status-missing id status payload s e =
    ap
      (λ o. elim o as (λ _. Bool × Proposals) [
        | none ↦ (false, s)
        | some q ↦ (true, save_proposal id (record (payload q) { status = status }) s)
      ])
      e

-- An update keeps the index, also where there is no record.
pub update_proposal_status-IsAssigned :
    (id : ℕ × ℕ) (status : ProposerStatus) (payload : Proposal → Proposal) (s : Proposals)
    → Keeps payload
    → IsAssigned s
    → IsAssigned (update_proposal_status id status payload s).1
update_proposal_status-IsAssigned id status payload s keeps h =
    elim (Option-cases (load_proposal id s)) [
      | inl e ↦ rw (update_proposal_status-missing id status payload s e) h
      | inr (p, e) ↦
          rw (update_proposal_status-found id status payload s p e)
            (save-IsAssigned id p status payload s keeps e h)
    ]

mark_committed-IsAssigned :
    (slot : ℕ) (b : Block) (p : Option Proposal) (s : Proposals)
    → IsAssigned s
    → IsAssigned (mark_committed slot b p s).1
unfolding mark_committed
mark_committed-IsAssigned slot b none s h = h
mark_committed-IsAssigned slot b (some p) s h = elim (Bool-cases (slot == 0)) [
  | inl e ↦ rw e h
  | inr e ↦ rw e (
      update_proposal_status-IsAssigned (p.epoch, p.slot) proposal_success (committed b) s
        (λ q. (refl, refl)) h)
]

mark_at-IsAssigned :
    (b : Block) (h : Option Header) (s : Proposals) → IsAssigned s → IsAssigned (mark_at b h s).1
unfolding mark_at
mark_at-IsAssigned b none s a = a
mark_at-IsAssigned b (some h) s a =
    mark_committed-IsAssigned h.slot b (get_proposal_by_slot h.slot s) s a

-- The update after a commit keeps the index, also where it does nothing.
pub update_proposal_status_after_commit-IsAssigned :
    (b : Block) (s : Proposals)
    → IsAssigned s
    → IsAssigned (update_proposal_status_after_commit b s).1
unfolding update_proposal_status_after_commit
update_proposal_status_after_commit-IsAssigned b s a = mark_at-IsAssigned b b.header s a
