-- ===== src/Chain/Walk.antt =====
-- The walk from a block to its ancestors (src/BachiCoin/lib_blockchain/blockchain.py).
use bachi_coin.Prelude.{
  ℕ, zero, suc, ◌<◌, ◌≡◌, refl, ap, true, false, Option, none, some, List, [], ◌∷◌, arith,
  Bool-cases, Option-cases, inl, inr,
}
use bachi_coin.Dict.{Key, Dict, get}
use bachi_coin.Block.{Block}
use bachi_coin.Chain.{walk, extend, chain_of, goes_on, get_chain_to_genesis, genesis_parent}

-- Parents come before their children in some ranking, so the store has no cycle.
pub record IsAcyclic (rank : Key → ℕ) (blocks : Dict Block) : Type 0 where
  pub before :
      (k p : Key) (b : Block) → get k blocks ≡ some b → b.parent_hash ≡ some p → rank p < rank k

walk-stops :
    (fuel : ℕ) (stop hash : Key) (blocks : Dict Block)
    → goes_on stop (some hash) ≡ false
    → walk (suc fuel) stop blocks (some hash) ≡ some ([], some hash)
unfolding walk
walk-stops fuel stop hash blocks e = rw e refl

walk-missing :
    (fuel : ℕ) (stop hash : Key) (blocks : Dict Block)
    → goes_on stop (some hash) ≡ true
    → get hash blocks ≡ none
    → walk (suc fuel) stop blocks (some hash) ≡ some (hash ∷ [], some hash)
unfolding walk
walk-missing fuel stop hash blocks e missing = rw (e, missing) refl

walk-stored :
    (fuel : ℕ) (stop hash : Key) (blocks : Dict Block) (b : Block)
    → goes_on stop (some hash) ≡ true
    → get hash blocks ≡ some b
    → walk (suc fuel) stop blocks (some hash) ≡ extend hash (walk fuel stop blocks b.parent_hash)
unfolding walk
walk-stored fuel stop hash blocks b e stored = rw (e, stored) refl

walk-none :
    (fuel : ℕ) (stop : Key) (blocks : Dict Block)
    → walk (suc fuel) stop blocks none ≡ some ([], none)
unfolding walk
walk-none fuel stop blocks = refl

abbrev Returns : Option (List Key × Option Key) → Type 0
Returns o = (r : List Key × Option Key) × (o ≡ some r)

Returns-extend :
    (hash : Key) (o : Option (List Key × Option Key)) → Returns o → Returns (extend hash o)
Returns-extend hash none ((chain, last), e) = cc
Returns-extend hash (some (c, l)) h = ((hash ∷ c, l), refl)

walk-Returns :
    (rank : Key → ℕ) (blocks : Dict Block) (stop : Key)
    → IsAcyclic rank blocks
    → (fuel : ℕ) (hash : Key) → rank hash < fuel
    → Returns (walk (suc fuel) stop blocks (some hash))
walk-Returns rank blocks stop h zero hash p = absurd (omega arith)
walk-Returns rank blocks stop h (suc fuel) hash p = elim (Bool-cases (goes_on stop (some hash))) [
  | inl on ↦ elim (Option-cases (get hash blocks)) [
    | inl e ↦ ((hash ∷ [], some hash), walk-missing (suc fuel) stop hash blocks on e)
    | inr (b, e) ↦ rw (walk-stored (suc fuel) stop hash blocks b on e) (
        Returns-extend hash (walk (suc fuel) stop blocks b.parent_hash)
          (elim (Option-cases b.parent_hash) [
            | inl e' ↦ rw e' (([], none), walk-none fuel stop blocks)
            | inr (parent, e') ↦ rw e' (
                walk-Returns rank blocks stop h fuel parent
                  (omega (arith, h.before hash parent b e e')))
          ]))
  ]
  | inr done ↦ (([], some hash), walk-stops (suc fuel) stop hash blocks done)
]

get_chain_to_genesis-walk :
    (fuel : ℕ) (blocks : Dict Block) (start : Key) (chain : List Key) (last : Option Key)
    → walk fuel genesis_parent blocks (some start) ≡ some (chain, last)
    → get_chain_to_genesis fuel blocks start ≡ some chain
unfolding get_chain_to_genesis
get_chain_to_genesis-walk fuel blocks start chain last e = ap chain_of e

-- Where the store has no cycle, `get_chain_to_genesis` ends: two rounds more than the rank of the
-- start suffice.
pub get_chain_to_genesis-returns :
    (rank : Key → ℕ) (blocks : Dict Block) (start : Key)
    → IsAcyclic rank blocks
    → (chain : List Key) × (get_chain_to_genesis (suc (suc (rank start))) blocks start ≡ some chain)
get_chain_to_genesis-returns rank blocks start h =
    let ((chain, last), q) =
      walk-Returns rank blocks genesis_parent h (suc (rank start)) start (omega arith) in
    (chain, get_chain_to_genesis-walk (suc (suc (rank start))) blocks start chain last q)
