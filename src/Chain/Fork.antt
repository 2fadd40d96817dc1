-- ===== src/Chain/Fork.antt =====
-- The fork point of a reorganization plan (src/BachiCoin/lib_blockchain/blockchain.py).
use bachi_coin.Prelude.{
  ◌≡◌, refl, ap, true, false, none, some, List, [], ◌∷◌, ◌++◌, arith, ◌==◌, length, Bool-cases,
  Option-cases, inl, inr, All,
}
use bachi_coin.Dict.{Key}
use bachi_coin.Chain.{is_in, find_common_ancestor, take_until, Reorganization, plan_from_chains}

-- A chain is what comes before a hash of it, the hash, and a rest.
take_until-split :
    (hash : Key) (chain : List Key)
    → is_in hash chain ≡ true
    → (rest : List Key) × (chain ≡ take_until hash chain ++ hash ∷ rest)
unfolding take_until
take_until-split hash [] h = cc
take_until-split hash (x ∷ chain) h = elim (Bool-cases (x == hash)) [
  | inl here ↦ (chain, rw here (ground arith))
  | inr later ↦
      let (rest, e) = take_until-split hash chain (ground (arith, h, later)) in
      (rest, rw later (ap (λ c. x ∷ c) e))
]

find_common_ancestor-is_in :
    (chain1 chain2 : List Key) (hash : Key)
    → find_common_ancestor chain1 chain2 ≡ some hash
    → (is_in hash chain1 ≡ true) × (is_in hash chain2 ≡ true)
unfolding find_common_ancestor
find_common_ancestor-is_in chain1 [] hash e = cc
find_common_ancestor-is_in chain1 (x ∷ chain2) hash e =
    ground (arith, find_common_ancestor-is_in chain1 chain2 hash)

abbrev pub NoneIn : List Key → List Key → Type 0
NoneIn chain hashes = All (λ hash. is_in hash chain ≡ false) hashes

find_common_ancestor-first :
    (chain1 chain2 : List Key) (hash : Key)
    → find_common_ancestor chain1 chain2 ≡ some hash
    → NoneIn chain1 (take_until hash chain2)
unfolding find_common_ancestor take_until
find_common_ancestor-first chain1 [] hash e = cc
find_common_ancestor-first chain1 (x ∷ chain2) hash e = elim (Bool-cases (x == hash)) [
  | inl here ↦ rw here tt
  | inr later ↦ rw later (
    ground (arith, later),
    find_common_ancestor-first chain1 chain2 hash (ground (arith, e, later)),
  )
]

find_common_ancestor-none :
    (chain1 chain2 : List Key) → find_common_ancestor chain1 chain2 ≡ none → NoneIn chain1 chain2
unfolding find_common_ancestor
find_common_ancestor-none chain1 [] e = tt
find_common_ancestor-none chain1 (x ∷ chain2) e =
    (ground (arith, e), find_common_ancestor-none chain1 chain2 (ground (arith, e)))

abbrev plan : Key → List Key → List Key → Reorganization
plan hash old_chain new_chain = record {
  common_ancestor = hash;
  blocks_to_unmark = take_until hash old_chain;
  blocks_to_mark = take_until hash new_chain;
  reorg_depth = length (take_until hash old_chain);
}

-- A plan for two chains: the fork point is on both; the marked blocks are those of the new chain
-- before it, and the unmarked ones those of the old chain before it; no marked block is on the old
-- chain; and the depth is the number of unmarked blocks.
pub plan_from_chains-forks :
    (old_chain new_chain : List Key) (p : Reorganization)
    → plan_from_chains old_chain new_chain ≡ some p
    → ((rest : List Key) × (old_chain ≡ p.blocks_to_unmark ++ p.common_ancestor ∷ rest))
      × ((rest : List Key) × (new_chain ≡ p.blocks_to_mark ++ p.common_ancestor ∷ rest))
      × NoneIn old_chain p.blocks_to_mark
      × (p.reorg_depth ≡ length p.blocks_to_unmark)
unfolding plan_from_chains
plan_from_chains-forks old_chain new_chain p e =
    elim (Option-cases (find_common_ancestor old_chain new_chain)) [
      | inl none_found ↦ absurd (ground (arith, e, none_found))
      | inr (hash, found) ↦
          let (on_old, on_new) = find_common_ancestor-is_in old_chain new_chain hash found in
          let same : plan hash old_chain new_chain ≡ p = ground (arith, e, found) in
          rw (← same) (
            take_until-split hash old_chain on_old,
            take_until-split hash new_chain on_new,
            find_common_ancestor-first old_chain new_chain hash found,
            refl,
          )
    ]

-- Where no plan is made, no block of the new chain is on the old one.
pub plan_from_chains-none :
    (old_chain new_chain : List Key)
    → plan_from_chains old_chain new_chain ≡ none
    → NoneIn old_chain new_chain
unfolding plan_from_chains
plan_from_chains-none old_chain new_chain e =
    elim (Option-cases (find_common_ancestor old_chain new_chain)) [
      | inl none_found ↦ find_common_ancestor-none old_chain new_chain none_found
      | inr (hash, found) ↦ absurd (ground (arith, e, found))
    ]
