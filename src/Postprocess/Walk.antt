-- ===== src/Postprocess/Walk.antt =====
-- The walk of the post-processing from the tip to the first block that is processed.
use mathlib.Core.Path.{subst}
use bachi_coin.Prelude.{
  ℕ, zero, suc, ◌<◌, ◌≡◌, refl, ap, sym, ◌∙◌, inl, inr, Bool, true, false, ◌||◌, Option, none, some,
  List, [], ◌∷◌, arith, Bool-cases, Option-cases, if◌then◌else◌, ◌==◌, All,
}
use bachi_coin.Dict.{Key, Dict, get}
use bachi_coin.Block.{Block}
use bachi_coin.Chain.{genesis_parent}
use bachi_coin.Postprocess.{parent_of, unprocessed}

-- Parents come before their children in some ranking.
pub record IsForward (rank : Key → ℕ) (blocks : Dict Block) : Type 0 where
  pub before : (hash : Key) (b : Block) → get hash blocks ≡ some b → rank (parent_of b) < rank hash

-- The test that ends the walk at a block of the first generation.
abbrev pub is_first : Block → Bool
is_first b = (parent_of b == 0) || (parent_of b == genesis_parent)

abbrev pub Found : Option (List Block) → Type 0
Found o = (bs : List Block) × (o ≡ some bs)

-- One round of the walk.
abbrev pub round : Bool → Bool → Block → List Block → Option (List Block) → Option (List Block)
round done first b found rest =
    if done then some found else if first then some (b ∷ found) else rest

pub unprocessed-round :
    (fuel : ℕ) (blocks : Dict Block) (b : Block) (found : List Block) (done first : Bool)
    → b.state_processed ≡ done
    → is_first b ≡ first
    → unprocessed (suc fuel) blocks (some b) found
      ≡ round done first b found (unprocessed fuel blocks (get (parent_of b) blocks) (b ∷ found))
unfolding unprocessed
unprocessed-round fuel blocks b found done first p q =
    let rest = unprocessed fuel blocks (get (parent_of b) blocks) (b ∷ found) in
    ap (λ t. round t (is_first b) b found rest) p ∙ ap (λ t. round done t b found rest) q

pub unprocessed-none :
    (fuel : ℕ) (blocks : Dict Block) (found : List Block)
    → unprocessed (suc fuel) blocks none found ≡ some found
unfolding unprocessed
unprocessed-none fuel blocks found = refl

unprocessed-zero :
    (blocks : Dict Block) (current : Option Block) (found : List Block)
    → unprocessed 0 blocks current found ≡ none
unfolding unprocessed
unprocessed-zero blocks current found = refl

pub unprocessed-Found :
    (rank : Key → ℕ) (blocks : Dict Block)
    → IsForward rank blocks
    → (fuel : ℕ) (hash : Key) (found : List Block) → rank hash < fuel
    → Found (unprocessed (suc fuel) blocks (get hash blocks) found)
unprocessed-Found rank blocks h zero hash found p = absurd (omega arith)
unprocessed-Found rank blocks h (suc fuel) hash found p = elim (Option-cases (get hash blocks)) [
  | inl e ↦ rw e (found, unprocessed-none (suc fuel) blocks found)
  | inr (b, e) ↦
      let step = unprocessed-round (suc fuel) blocks b found in
      rw e (elim (Bool-cases b.state_processed) [
        | inl done ↦ (found, step true (is_first b) done refl)
        | inr new ↦ elim (Bool-cases (is_first b)) [
          | inl first ↦ (b ∷ found, step false true new first)
          | inr later ↦
              let (bs, q) =
                unprocessed-Found rank blocks h fuel (parent_of b) (b ∷ found)
                  (omega (arith, h.before hash b e)) in
              (bs, step false false new later ∙ q)
        ]
      ])
]

-- What holds of all blocks of the walk holds of those that were found before.
pub unprocessed-All :
    (P : Block → Type 0) (fuel : ℕ) (blocks : Dict Block) (current : Option Block)
    (found bs : List Block)
    → unprocessed fuel blocks current found ≡ some bs
    → All P bs
    → All P found
unprocessed-All P zero blocks current found bs e h = cc (unprocessed-zero blocks current found)
unprocessed-All P (suc fuel) blocks none found bs e h =
    let same : found ≡ bs = cc (unprocessed-none fuel blocks found) in subst (All P) (sym same) h
unprocessed-All P (suc fuel) blocks (some b) found bs e h =
    let step = unprocessed-round fuel blocks b found in
    elim (Bool-cases b.state_processed) [
      | inl done ↦
          let same : found ≡ bs = cc (step true (is_first b) done refl) in
          subst (All P) (sym same) h
      | inr new ↦ elim (Bool-cases (is_first b)) [
        | inl first ↦
            let same : b ∷ found ≡ bs = cc (step false true new first) in
            (subst (All P) (sym same) h).1
        | inr later ↦
            (unprocessed-All P fuel blocks (get (parent_of b) blocks) (b ∷ found) bs
              (sym (step false false new later) ∙ e) h).1
      ]
    ]

-- A tip that is not processed is among the blocks of the walk.
pub tip-All :
    (P : Block → Type 0) (fuel : ℕ) (blocks : Dict Block) (b : Block) (bs : List Block)
    → b.state_processed ≡ false
    → unprocessed (suc fuel) blocks (some b) [] ≡ some bs
    → All P bs
    → P b
tip-All P fuel blocks b bs new e h =
    let step = unprocessed-round fuel blocks b [] in
    elim (Bool-cases (is_first b)) [
      | inl first ↦
          let same : b ∷ [] ≡ bs = cc (step false true new first) in (subst (All P) (sym same) h).0
      | inr later ↦
          (unprocessed-All P fuel blocks (get (parent_of b) blocks) (b ∷ []) bs
            (sym (step false false new later) ∙ e) h).0
    ]
