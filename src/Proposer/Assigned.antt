-- ===== src/Proposer/Assigned.antt =====
-- What the proposal duties keep of their index.
use bachi_coin.Prelude.{
  ◌+◌, ◌/◌, length, ℕ, ◌≡◌, ◌⊎◌, refl, sym, ◌∙◌, ap, Bool, true, false, Option, none, some, [], ◌∷◌,
  arith, inl, inr, ◌==◌, Bool-cases, Option-cases, if◌then◌else◌,
}
use bachi_coin.Dict.{Key, Dict, get, put, contains, get-put}
use bachi_coin.Exec.{ok, err, assertion_failed}
use bachi_coin.Validator.{Registry}
use bachi_coin.Attestor.{slots_per_epoch}
use bachi_coin.Proposer.{
  proposals_in, is_known, Proposal, Proposals, id_of, create_proposal_data,
  update_index_with_proposal, load_proposal, save_proposal, assign_proposal_duty, add_duty,
  get_proposal_by_slot,
}

-- The index's entry of a slot and the record under the slot's identifier: both are missing, or the
-- entry is the identifier and the record is of the slot and its epoch.
abbrev pub Matches : ℕ → Option (ℕ × ℕ) → Option Proposal → Type 0
Matches slot none none = Unit
Matches slot (some id) (some p) =
    (id ≡ id_of slot) × (p.slot ≡ slot) × (p.epoch ≡ slot / slots_per_epoch)
Matches slot _ _ = ⊥

pub record IsAssigned (s : Proposals) : Type 0 where
  pub matches : (slot : ℕ) → Matches slot (get slot s.duties_by_slot) (load_proposal (id_of slot) s)
  pub counted : s.total_duties_assigned ≡ length s.duties_by_slot

abbrev pub same_id : ℕ × ℕ → ℕ × ℕ → Bool
same_id (e, i) (e', i') = if e == e' then i == i' else false

pub load-save :
    (id other : ℕ × ℕ) (p : Proposal) (s : Proposals)
    → load_proposal other (save_proposal id p s)
      ≡ (if same_id id other then some p else load_proposal other s)
unfolding load_proposal save_proposal
load-save (e, i) (e', i') p s = ground (
  arith,
  get-put e e' (put i p (proposals_in e s.records)) s.records,
  get-put i i' p (proposals_in e s.records),
)

length-put_new {ℓ} :
    {V : Type ℓ} (k : Key) (v : V) (d : Dict V) → get k d ≡ none → length (put k v d) ≡ length d + 1
length-put_new k v [] e = omega arith
length-put_new k v ((j, w) ∷ d) e = ground (arith, length-put_new k v d)

load-add_duty :
    (slot validator j : ℕ) (s : Proposals)
    → load_proposal (id_of j) (add_duty slot validator s) ≡ (
        if slot == j then some (create_proposal_data slot validator) else load_proposal (id_of j) s)
unfolding add_duty update_index_with_proposal create_proposal_data load_proposal save_proposal
load-add_duty slot validator j s =
    ground (arith, load-save (id_of slot) (id_of j) (create_proposal_data slot validator) s)

pub index-add_duty :
    (slot validator j : ℕ) (s : Proposals)
    → get j (add_duty slot validator s).duties_by_slot
      ≡ (if slot == j then some (id_of slot) else get j s.duties_by_slot)
unfolding add_duty update_index_with_proposal create_proposal_data save_proposal
index-add_duty slot validator j s = get-put slot j (id_of slot) s.duties_by_slot

total-add_duty :
    (slot validator : ℕ) (s : Proposals)
    → (add_duty slot validator s).total_duties_assigned ≡ s.total_duties_assigned + 1
unfolding add_duty update_index_with_proposal save_proposal
total-add_duty slot validator s = refl

length-add_duty :
    (slot validator : ℕ) (s : Proposals)
    → get slot s.duties_by_slot ≡ none
    → length (add_duty slot validator s).duties_by_slot ≡ length s.duties_by_slot + 1
unfolding add_duty update_index_with_proposal create_proposal_data save_proposal
length-add_duty slot validator s free = length-put_new slot (id_of slot) s.duties_by_slot free

made-Matches :
    (slot validator j : ℕ)
    → slot ≡ j
    → Matches j (some (id_of slot)) (some (create_proposal_data slot validator))
unfolding create_proposal_data
made-Matches slot validator j e = (ap id_of e, e, ap (λ n. n / slots_per_epoch) e)

add_duty-Matches :
    (slot validator j : ℕ) (s : Proposals)
    → Matches j (get j s.duties_by_slot) (load_proposal (id_of j) s)
    → Matches j
        (get j (add_duty slot validator s).duties_by_slot)
        (load_proposal (id_of j) (add_duty slot validator s))
add_duty-Matches slot validator j s h =
    rw (index-add_duty slot validator j s, load-add_duty slot validator j s)
      (elim (Bool-cases (slot == j)) [
        | inl here ↦ rw here (made-Matches slot validator j (ground arith))
        | inr other ↦ rw other h
      ])

pub add_duty-IsAssigned :
    (slot validator : ℕ) (s : Proposals)
    → IsAssigned s
    → get slot s.duties_by_slot ≡ none
    → IsAssigned (add_duty slot validator s)
add_duty-IsAssigned slot validator s h free = record {
  matches = λ j. add_duty-Matches slot validator j s (h.matches j);
  counted =
      omega
        (arith, h.counted, total-add_duty slot validator s, length-add_duty slot validator s free);
}

contains-get {ℓ} : {V : Type ℓ} (k : Key) (d : Dict V) → (get k d ≡ none) ⊎ (contains k d ≡ true)
contains-get k d = elim (Option-cases (get k d)) [
  | inl e ↦ inl e
  | inr (v, e) ↦ inr (ground (arith, e))
]

not_contained {ℓ} : {V : Type ℓ} (k : Key) (d : Dict V) → get k d ≡ none → contains k d ≡ false
not_contained k d e = ground (arith, e)

-- A duty of a known validator for a free slot is filed.
pub assign_proposal_duty-assigns :
    (slot validator : ℕ) (r : Registry) (s : Proposals)
    → is_known validator r ≡ true
    → get slot s.duties_by_slot ≡ none
    → assign_proposal_duty slot validator r s ≡ (ok (id_of slot), add_duty slot validator s)
unfolding assign_proposal_duty
assign_proposal_duty-assigns slot validator r s known free =
    rw (known, not_contained slot s.duties_by_slot free) refl

-- A slot that the index has is refused, whoever the validator, and nothing changes.
pub assign_proposal_duty-again :
    (slot validator : ℕ) (r : Registry) (s : Proposals)
    → contains slot s.duties_by_slot ≡ true
    → assign_proposal_duty slot validator r s ≡ (err assertion_failed, s)
unfolding assign_proposal_duty
assign_proposal_duty-again slot validator r s taken = elim (Bool-cases (is_known validator r)) [
  | inl e ↦ rw (e, taken) refl
  | inr e ↦ rw e refl
]

-- Assigning a duty keeps the index consistent, also where it fails.
pub assign_proposal_duty-IsAssigned :
    (slot validator : ℕ) (r : Registry) (s : Proposals)
    → IsAssigned s
    → IsAssigned (assign_proposal_duty slot validator r s).1
unfolding assign_proposal_duty
assign_proposal_duty-IsAssigned slot validator r s h = elim (Bool-cases (is_known validator r)) [
  | inr e ↦ rw e h
  | inl e ↦ elim (contains-get slot s.duties_by_slot) [
    | inl free ↦
        rw (e, not_contained slot s.duties_by_slot free)
          (add_duty-IsAssigned slot validator s h free)
    | inr taken ↦ rw (e, taken) h
  ]
]

-- The duty of a slot is the record under its identifier.
pub get_proposal-load :
    (slot : ℕ) (s : Proposals)
    → IsAssigned s
    → get_proposal_by_slot slot s ≡ load_proposal (id_of slot) s
unfolding get_proposal_by_slot
get_proposal-load slot s h =
    go (get slot s.duties_by_slot) (load_proposal (id_of slot) s) refl refl (h.matches slot)
  where
    go :
        (i : Option (ℕ × ℕ)) (p : Option Proposal)
        → get slot s.duties_by_slot ≡ i
        → load_proposal (id_of slot) s ≡ p
        → Matches slot i p
        → get_proposal_by_slot slot s ≡ load_proposal (id_of slot) s
    go none none e f m = rw f (ground (arith, e))
    go (some id) (some p) e f m =
        ap (λ k. elim k [ none ↦ none | some n ↦ load_proposal n s ]) e
        ∙ ap (λ n. load_proposal n s) m.0
    go none (some p) e f m = elim m [ ]
    go (some id) none e f m = elim m [ ]

pub get_proposal-add_duty :
    (slot validator j : ℕ) (s : Proposals)
    → IsAssigned s
    → get slot s.duties_by_slot ≡ none
    → get_proposal_by_slot j (add_duty slot validator s)
      ≡ (if slot == j then some (create_proposal_data slot validator) else get_proposal_by_slot j s)
get_proposal-add_duty slot validator j s h free =
    get_proposal-load j _ (add_duty-IsAssigned slot validator s h free)
    ∙ load-add_duty slot validator j s
    ∙ ap (λ old. if slot == j then some (create_proposal_data slot validator) else old)
        (sym (get_proposal-load j s h))
