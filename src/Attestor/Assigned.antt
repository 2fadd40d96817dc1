-- ===== src/Attestor/Assigned.antt =====
-- The duties of an epoch after they are assigned.
use mathlib.Core.List.{append-nil, append_assoc}
use bachi_coin.Prelude.{
  ℕ, zero, suc, ◌+◌, ◌*◌, map, ◌≡◌, refl, ap, sym, ◌∙◌, none, some, List, [], ◌∷◌, ◌++◌, arith,
}
use bachi_coin.Dict.{Key, Dict, get, get-put}
use bachi_coin.Exec.{ok, err, assertion_failed}
use bachi_coin.Attestor.{
  Duties, slots_per_epoch, list_at, assign_duty, assign_slot, assign_slots,
  update_index_with_attestation, create_attestation_data, assign_attestation_duties_for_epoch,
}

-- The identifiers of one duty for each validator at a slot.
abbrev slot_ids : ℕ → List ℕ → List (ℕ × ℕ)
slot_ids slot vs = map (λ v. (slot, v)) vs

-- The identifiers of one duty for each of `count` slots, from `slot` on, and each validator.
abbrev pub epoch_ids : ℕ → ℕ → List ℕ → List (ℕ × ℕ)
epoch_ids zero slot vs = []
epoch_ids (suc count) slot vs = slot_ids slot vs ++ epoch_ids count (slot + 1) vs

-- The same identifiers are added to the collected ones and to the duties of the epoch.
abbrev Adds : ℕ → List (ℕ × ℕ) → List (ℕ × ℕ) × Duties → List (ℕ × ℕ) × Duties → Type 0
Adds epoch added c c' =
    (c'.0 ≡ c.0 ++ added)
    × (list_at epoch c'.1.duties_by_epoch ≡ list_at epoch c.1.duties_by_epoch ++ added)

Adds-nil : (epoch : ℕ) (c : List (ℕ × ℕ) × Duties) → Adds epoch [] c c
Adds-nil epoch c = (sym (append-nil c.0), sym (append-nil (list_at epoch c.1.duties_by_epoch)))

Adds-append :
    (epoch : ℕ) (xs ys : List (ℕ × ℕ)) (c c' c'' : List (ℕ × ℕ) × Duties)
    → Adds epoch xs c c'
    → Adds epoch ys c' c''
    → Adds epoch (xs ++ ys) c c''
Adds-append epoch xs ys c c' c'' (e1, e2) (e1', e2') = (
  e1' ∙ ap (λ ids. ids ++ ys) e1 ∙ append_assoc c.0 xs ys,
  e2' ∙ ap (λ ids. ids ++ ys) e2 ∙ append_assoc (list_at epoch c.1.duties_by_epoch) xs ys,
)

assign_duty-Adds :
    (slot epoch v : ℕ) (c : List (ℕ × ℕ) × Duties)
    → Adds epoch ((slot, v) ∷ []) c (assign_duty slot epoch v c)
unfolding assign_duty update_index_with_attestation create_attestation_data
assign_duty-Adds slot epoch v (collected, s) =
    let ids = list_at epoch s.duties_by_epoch ++ (slot, v) ∷ [] in
    (refl, ground (arith, get-put epoch epoch ids s.duties_by_epoch))

assign_slot-Adds :
    (slot epoch : ℕ) (vs : List ℕ) (c : List (ℕ × ℕ) × Duties)
    → Adds epoch (slot_ids slot vs) c (assign_slot slot epoch vs c)
unfolding assign_slot
assign_slot-Adds slot epoch [] c = Adds-nil epoch c
assign_slot-Adds slot epoch (v ∷ vs) c =
    Adds-append epoch ((slot, v) ∷ []) (slot_ids slot vs) c (assign_duty slot epoch v c)
      (assign_slot slot epoch vs (assign_duty slot epoch v c)) (assign_duty-Adds slot epoch v c)
      (assign_slot-Adds slot epoch vs (assign_duty slot epoch v c))

assign_slots-Adds :
    (count slot epoch : ℕ) (vs : List ℕ) (c : List (ℕ × ℕ) × Duties)
    → Adds epoch (epoch_ids count slot vs) c (assign_slots count slot epoch vs c)
unfolding assign_slots
assign_slots-Adds zero slot epoch vs c = Adds-nil epoch c
assign_slots-Adds (suc count) slot epoch vs c =
    Adds-append epoch (slot_ids slot vs) (epoch_ids count (slot + 1) vs) c
      (assign_slot slot epoch vs c)
      (assign_slots count (slot + 1) epoch vs (assign_slot slot epoch vs c))
      (assign_slot-Adds slot epoch vs c)
      (assign_slots-Adds count (slot + 1) epoch vs (assign_slot slot epoch vs c))

list_at-none : (k : Key) (d : Dict (List (ℕ × ℕ))) → get k d ≡ none → list_at k d ≡ []
list_at-none k d e = ground (arith, e)

assign-eq :
    (v : ℕ) (vs : List ℕ) (epoch : ℕ) (s : Duties)
    → get epoch s.duties_by_epoch ≡ none
    → let c = assign_slots slots_per_epoch (epoch * slots_per_epoch) epoch (v ∷ vs) ([], s) in
      assign_attestation_duties_for_epoch (v ∷ vs) epoch s ≡ (ok c.0, c.1)
unfolding assign_attestation_duties_for_epoch
assign-eq v vs epoch s e = ground (arith, e)

-- Assignment with at least one active validator, for an epoch that has no duties yet: the answer is
-- the identifiers of one duty for each slot of the epoch and each validator, in this order, and
-- these are the epoch's duties afterwards.
pub assign_attestation_duties_for_epoch-lists :
    (v : ℕ) (vs : List ℕ) (epoch : ℕ) (s : Duties)
    → get epoch s.duties_by_epoch ≡ none
    → let ids = epoch_ids slots_per_epoch (epoch * slots_per_epoch) (v ∷ vs) in
      let (answer, s') = assign_attestation_duties_for_epoch (v ∷ vs) epoch s in
      (answer ≡ ok ids) × (list_at epoch s'.duties_by_epoch ≡ ids)
assign_attestation_duties_for_epoch-lists v vs epoch s e =
    let first = epoch * slots_per_epoch in
    let (answered, listed) = assign_slots-Adds slots_per_epoch first epoch (v ∷ vs) ([], s) in
    let ids = epoch_ids slots_per_epoch first (v ∷ vs) in
    rw (assign-eq v vs epoch s e)
      (ap ok answered, listed ∙ ap (λ xs. xs ++ ids) (list_at-none epoch s.duties_by_epoch e))

-- A second assignment for an epoch that has duties raises and changes nothing.
pub assign_attestation_duties_for_epoch-again :
    (vs : List ℕ) (epoch : ℕ) (s : Duties) (ids : List (ℕ × ℕ))
    → get epoch s.duties_by_epoch ≡ some ids
    → assign_attestation_duties_for_epoch vs epoch s ≡ (err assertion_failed, s)
unfolding assign_attestation_duties_for_epoch
assign_attestation_duties_for_epoch-again [] epoch s ids e = refl
assign_attestation_duties_for_epoch-again (v ∷ vs) epoch s ids e = ground (arith, e)
