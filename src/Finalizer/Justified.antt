-- ===== src/Finalizer/Justified.antt =====
-- When an epoch is justified and when it is finalized.
use mathlib.Core.Path.{subst}
use bachi_coin.Prelude.{
  ◌∙◌, sym, ℕ, ◌*◌, ◌≤◌, ◌≡◌, refl, ap, true, false, Option, none, some, [], ◌∷◌, arith, ltb, All,
  if◌then◌else◌, Bool-cases, Option-cases, inl, inr, ◌⊎◌,
}
use bachi_coin.Dict.{Key, Dict, get, get-put}
use bachi_coin.Exec.{Result, ok, err, Exec, gets, ◌>>=◌, ◌>>◌}
use bachi_coin.Block.{BlockStatus}
use bachi_coin.BlockIndex.{BlockStore}
use bachi_coin.Finalizer.{
  Votes, Checkpoint, FinalityStatus, World, most_common, decide, justify, process_votes,
  is_supermajority, is_successor, finalize_checkpoint, create_checkpoint_data, on_blocks,
  on_finality, advance_finality, store_checkpoint, update_finality_in_index,
  update_block_statuses_for_epoch,
}

-- An entry of a count of votes.
abbrev pub IsEntry : (Key × ℕ) × ℕ → Votes → Type 0
IsEntry w [] = ⊥
IsEntry w (v ∷ votes) = (w ≡ v) ⊎ IsEntry w votes

skip_second :
    (w v x : (Key × ℕ) × ℕ) (votes : Votes) → IsEntry w (v ∷ votes) → IsEntry w (v ∷ x ∷ votes)
skip_second w v x votes (inl e) = inl e
skip_second w v x votes (inr h) = inr (inr h)

-- The winner is an entry.
most_common-IsEntry :
    (t : Key × ℕ) (n : ℕ) (votes : Votes) → IsEntry (most_common t n votes) ((t, n) ∷ votes)
unfolding most_common
most_common-IsEntry t n [] = inl refl
most_common-IsEntry t n ((u, m) ∷ votes) = elim (Bool-cases (ltb n m)) [
  | inl less ↦
      let won : most_common u m votes ≡ most_common t n ((u, m) ∷ votes) = ground (arith, less) in
      subst (λ w. IsEntry w ((t, n) ∷ (u, m) ∷ votes)) won (inr (most_common-IsEntry u m votes))
  | inr more ↦
      let won : most_common t n votes ≡ most_common t n ((u, m) ∷ votes) = ground (arith, more) in
      subst (λ w. IsEntry w ((t, n) ∷ (u, m) ∷ votes)) won
        (skip_second (most_common t n votes) (t, n) (u, m) votes (most_common-IsEntry t n votes))
]

-- No entry has more than the winner.
most_common-le :
    (t : Key × ℕ) (n : ℕ) (votes : Votes)
    → (n ≤ (most_common t n votes).1) × All (λ v. v.1 ≤ (most_common t n votes).1) votes
unfolding most_common
most_common-le t n [] = (omega arith, tt)
most_common-le t n ((u, m) ∷ votes) =
    let Tops : (Key × ℕ) × ℕ → Type 0 = λ w. (n ≤ w.1) × All (λ v. v.1 ≤ w.1) ((u, m) ∷ votes) in
    elim (Bool-cases (ltb n m)) [
      | inl less ↦
          let (first, rest) = most_common-le u m votes in
          let won : most_common u m votes ≡ most_common t n ((u, m) ∷ votes) =
            ground (arith, less) in
          subst Tops won (ground (arith, first, less), (first, rest))
      | inr more ↦
          let (first, rest) = most_common-le t n votes in
          let won : most_common t n votes ≡ most_common t n ((u, m) ∷ votes) =
            ground (arith, more) in
          subst Tops won (first, (ground (arith, first, more), rest))
    ]

get-finalize_checkpoint :
    (last : Option ℕ) (epoch : ℕ) (d : Dict Checkpoint)
    → is_successor last epoch ≡ true
    → get epoch (finalize_checkpoint last d) ≡ get epoch d
unfolding finalize_checkpoint
get-finalize_checkpoint none epoch d h = refl
get-finalize_checkpoint (some e) epoch d h = elim (Option-cases (get e d)) [
  | inl missing ↦ rw missing refl
  | inr (c, at) ↦
      rw at (ground (arith, h, get-put e epoch (record c { status = FinalityStatus.finalized }) d))
]

-- What holds of the finalizer's store after a justification that returns, given the epochs from
-- before it.
abbrev pub Finalizes : Key → ℕ → Option ℕ → Option ℕ → Result (Unit {0}) × World → Type 0
Finalizes root epoch last fin (ok _, w) =
    (get epoch w.finality.checkpoints ≡ some (create_checkpoint_data epoch root))
    × (w.finality.justified_epoch ≡ some epoch)
    × (w.finality.finalized_epoch ≡ (if is_successor last epoch then last else fin))
Finalizes root epoch last fin (err _, w) = Unit

-- The updates of blocks that return leave the finalizer's store to what follows them.
after_result :
    (root : Key) (epoch : ℕ) (last fin : Option ℕ) (r : Result (Unit {0})) (b : BlockStore)
    (k : Exec World (Unit {0})) (w : World)
    → Finalizes root epoch last fin (k (record w { blocks = b }))
    → Finalizes root epoch last fin (((λ _. (r, record w { blocks = b })) >> k) w)
after_result root epoch last fin (ok _) b k w h = h
after_result root epoch last fin (err e) b k w h = tt

after_blocks :
    (root : Key) (epoch : ℕ) (last fin : Option ℕ) (m : Exec BlockStore (Unit {0}))
    (k : Exec World (Unit {0})) (w : World)
    → ((b : BlockStore) → Finalizes root epoch last fin (k (record w { blocks = b })))
    → Finalizes root epoch last fin ((on_blocks m >> k) w)
after_blocks root epoch last fin m k w h =
    let (r, b) = m w.blocks in after_result root epoch last fin r b k w (h b)

advance_finality-Finalizes :
    (root : Key) (epoch : ℕ) (last fin : Option ℕ) (w : World)
    → get epoch w.finality.checkpoints ≡ some (create_checkpoint_data epoch root)
    → Finalizes root epoch last fin (advance_finality last fin epoch w)
unfolding advance_finality update_finality_in_index
advance_finality-Finalizes root epoch none fin w at = (at, refl, refl)
advance_finality-Finalizes root epoch (some e) fin w at =
    elim (Bool-cases (is_successor (some e) epoch)) [
      | inl next ↦
          let kept = get-finalize_checkpoint (some e) epoch w.finality.checkpoints next ∙ at in
          let done = on_finality (update_finality_in_index (some epoch) (some e)) in
          rw next (
            after_blocks root epoch (some e) fin
              (update_block_statuses_for_epoch e BlockStatus.finalized) done
              (record w {
                finality = record w.finality {
                  checkpoints = finalize_checkpoint (some e) w.finality.checkpoints;
                };
              })
              λ b. (kept, refl, rw next refl))
      | inr other ↦ rw other (at, refl, rw other refl)
    ]

-- A justification that returns has stored the checkpoint of the epoch with its root; the epoch is the
-- justified one; and the last justified epoch is the finalized one exactly if it is the epoch before,
-- else the finalized epoch is as it was.
pub justify-Finalizes :
    (root : Key) (epoch : ℕ) (w : World)
    → Finalizes root epoch w.finality.justified_epoch w.finality.finalized_epoch
        (justify root epoch w)
unfolding justify store_checkpoint
justify-Finalizes root epoch w =
    let stored = store_checkpoint root epoch w.finality in
    after_blocks root epoch w.finality.justified_epoch w.finality.finalized_epoch
      (update_block_statuses_for_epoch epoch BlockStatus.justified)
      (advance_finality w.finality.justified_epoch w.finality.finalized_epoch epoch)
      (record w { finality = stored })
      λ b.
        advance_finality-Finalizes root epoch w.finality.justified_epoch w.finality.finalized_epoch
          (record { finality = stored; blocks = b })
          (ground
            (arith, get-put epoch epoch (create_checkpoint_data epoch root) w.finality.checkpoints))

checkpoint_of_result :
    (root : Key) (epoch : ℕ) (last fin : Option ℕ) (y : Result (Unit {0}) × World) (w : World)
    (c : Checkpoint)
    → Finalizes root epoch last fin y
    → (((λ _. y) >>= λ _. gets (λ v. get epoch v.finality.checkpoints)) w).0 ≡ ok (some c)
    → c ≡ create_checkpoint_data epoch root
checkpoint_of_result root epoch last fin (ok _, w') w c h e = ground (arith, e, h.0)
checkpoint_of_result root epoch last fin (err x, w') w c h e = cc

decide-enough :
    (root : Key) (epoch participating total : ℕ) (w : World)
    → is_supermajority participating total ≡ true
    → decide ((root, epoch), participating) total w
      ≡ ((λ _. justify root epoch w) >>= λ _. gets (λ v. get epoch v.finality.checkpoints)) w
unfolding decide
decide-enough root epoch participating total w e = rw e refl

decide-short :
    (root : Key) (epoch participating total : ℕ) (w : World)
    → is_supermajority participating total ≡ false
    → decide ((root, epoch), participating) total w ≡ (ok none, w)
unfolding decide
decide-short root epoch participating total w e = rw e refl

decide-winner :
    (v : (Key × ℕ) × ℕ) (total : ℕ) (w : World) (c : Checkpoint)
    → (decide v total w).0 ≡ ok (some c)
    → (total * 2 ≤ v.1 * 3) × (c ≡ create_checkpoint_data v.0.1 v.0.0)
decide-winner ((root, epoch), participating) total w c h =
    elim (Bool-cases (is_supermajority participating total)) [
      | inl enough ↦ (
        ground (arith, enough),
        checkpoint_of_result root epoch w.finality.justified_epoch w.finality.finalized_epoch
            (justify root epoch w) w c (justify-Finalizes root epoch w)
            (sym (ap (λ y. y.0) (decide-enough root epoch participating total w enough)) ∙ h),
      )
      | inr short ↦ absurd (ground (arith, h, decide-short root epoch participating total w short))
    ]

process_votes-decide :
    (t : Key × ℕ) (n : ℕ) (votes : Votes) (total : ℕ) (w : World)
    → process_votes ((t, n) ∷ votes) total w ≡ decide (most_common t n votes) total w
unfolding process_votes
process_votes-decide t n votes total w = refl

-- Where a count of votes gives a checkpoint, it is that of the target of an entry of the count with
-- at least two thirds of the whole stake, and no entry of the count has more votes.
pub process_votes-winner :
    (t : Key × ℕ) (n : ℕ) (votes : Votes) (total : ℕ) (w : World) (c : Checkpoint)
    → (process_votes ((t, n) ∷ votes) total w).0 ≡ ok (some c)
    → (v : (Key × ℕ) × ℕ) × (IsEntry v ((t, n) ∷ votes)
        × (c ≡ create_checkpoint_data v.0.1 v.0.0)
        × (total * 2 ≤ v.1 * 3)
        × All (λ u. u.1 ≤ v.1) ((t, n) ∷ votes))
process_votes-winner t n votes total w c h =
    let v = most_common t n votes in
    let (enough, same) =
      decide-winner v total w c
        (ap (λ y. y.0) (sym (process_votes-decide t n votes total w)) ∙ h) in
    (v, (most_common-IsEntry t n votes, same, enough, most_common-le t n votes))
