-- ===== src/Chain.antt =====
-- Chain utilities (src/BachiCoin/lib_blockchain/blockchain.py) over the stored blocks. The hash of
-- 64 zeros is the number `genesis_parent`. A block points to its parent by hash, so a chain that is
-- longer than the store repeats a block; the fuel of the walks is the caller's.
pub mod Fork
pub mod Structure
pub mod Walk
use bachi_coin.Prelude.{
  ℕ, zero, suc, ◌+◌, ◌-◌, Bool, true, false, not, ◌&&◌, Option, none, some, List, [], ◌∷◌, ◌++◌,
  map, length, any_of, ltb, leb, ◌==◌, if◌then◌else◌,
}
use bachi_coin.Dict.{Key, Dict, get, put}
use bachi_coin.Block.{Block}

-- "0x" and 64 zeros.
abbrev pub genesis_parent : Key
genesis_parent = 2

abbrev pub is_in : Key → List Key → Bool
is_in hash hashes = any_of (λ h. h == hash) hashes

-- `find_common_ancestor`: the first hash of the second chain that the first has.
unfoldable pub find_common_ancestor : List Key → List Key → Option Key
find_common_ancestor chain1 [] = none
find_common_ancestor chain1 (hash ∷ chain2) =
    let rest = find_common_ancestor chain1 chain2 in if is_in hash chain1 then some hash else rest

-- `current_hash and current_hash != stop`
abbrev pub goes_on : Key → Option Key → Bool
goes_on stop none = false
goes_on stop (some hash) = not (hash == 0) && not (hash == stop)

abbrev pub key_or_empty : Option Key → Key
key_or_empty none = 0
key_or_empty (some hash) = hash

-- `chain.append(current_hash)`, before the rest of the walk.
abbrev pub extend : Key → Option (List Key × Option Key) → Option (List Key × Option Key)
extend hash none = none
extend hash (some (chain, last)) = some (hash ∷ chain, last)

-- The loop of both walks, with the hash that it stands at when it ends. `none`: out of fuel.
unfoldable pub walk : ℕ → Key → Dict Block → Option Key → Option (List Key × Option Key)
walk zero stop blocks current = none
walk (suc fuel) stop blocks current =
    let hash = key_or_empty current in
    if goes_on stop current
    then elim (get hash blocks) [
      | none ↦ some (hash ∷ [], current)
      | some b ↦ extend hash (walk fuel stop blocks b.parent_hash)
    ]
    else some ([], current)

abbrev pub chain_of : Option (List Key × Option Key) → Option (List Key)
chain_of none = none
chain_of (some (chain, _)) = some chain

-- `get_chain_to_genesis`
unfoldable pub get_chain_to_genesis : ℕ → Dict Block → Key → Option (List Key)
unfolding walk
get_chain_to_genesis fuel blocks start = chain_of (walk fuel genesis_parent blocks (some start))

abbrev pub ends_at : Key → Option Key → Bool
ends_at stop none = false
ends_at stop (some hash) = hash == stop

-- `get_chain_between_blocks`
unfoldable pub get_chain_between_blocks : ℕ → Dict Block → Key → Key → Option (List Key)
unfolding walk
get_chain_between_blocks fuel blocks start stop = elim (walk fuel stop blocks (some start)) [
  | none ↦ none
  | some (chain, last) ↦ some (if ends_at stop last then chain ++ stop ∷ [] else chain)
]

-- The two loops that collect the hashes before the fork point.
unfoldable pub take_until : Key → List Key → List Key
take_until stop [] = []
take_until stop (hash ∷ chain) =
    let rest = take_until stop chain in if hash == stop then [] else hash ∷ rest

pub record Reorganization : Type 0 where
  pub common_ancestor : Key
  pub blocks_to_unmark : List Key
  pub blocks_to_mark : List Key
  pub reorg_depth : ℕ

-- `plan_chain_reorganization` on the two chains; `none` is the answer without success.
unfoldable pub plan_from_chains : List Key → List Key → Option Reorganization
unfolding find_common_ancestor take_until
plan_from_chains old_chain new_chain = elim (find_common_ancestor old_chain new_chain) [
  | none ↦ none
  | some ancestor ↦ some (record {
    common_ancestor = ancestor;
    blocks_to_unmark = take_until ancestor old_chain;
    blocks_to_mark = take_until ancestor new_chain;
    reorg_depth = length (take_until ancestor old_chain);
  })
]

unfoldable pub plan_chain_reorganization :
    ℕ → Dict Block → Key → Key → Option (Option Reorganization)
unfolding get_chain_to_genesis plan_from_chains
plan_chain_reorganization fuel blocks old_tip new_tip =
    elim (get_chain_to_genesis fuel blocks old_tip) [
      | none ↦ none
      | some old_chain ↦ elim (get_chain_to_genesis fuel blocks new_tip) [
        | none ↦ none
        | some new_chain ↦ some (plan_from_chains old_chain new_chain)
      ]
    ]

pub data StructureError : Type 0 where
  invalid_parent_hash invalid_height : ℕ → StructureError

-- The two tests on neighbours.
unfoldable pub link_errors : Block → Block → List StructureError
link_errors parent current =
    (if ends_at parent.block_hash current.parent_hash
      then []
      else invalid_parent_hash current.height ∷ [])
    ++ (if current.height == parent.height + 1 then [] else invalid_height current.height ∷ [])

unfoldable pub structure_errors_from : Block → List Block → List StructureError
unfolding link_errors
structure_errors_from parent [] = []
structure_errors_from parent (b ∷ bs) = link_errors parent b ++ structure_errors_from b bs

-- `validate_chain_structure_batch`
unfoldable pub validate_chain_structure_batch : List Block → Bool × List StructureError
unfolding structure_errors_from
validate_chain_structure_batch [] = (true, [])
validate_chain_structure_batch (b ∷ bs) =
    let errors = structure_errors_from b bs in (length errors == 0, errors)
