-- ===== src/Tests/Blocks.antt =====
-- Chains of three blocks, the block index, and base fees.
use bachi_coin.Prelude.{
  ℕ, ◌≡◌, refl, ◌↔◌, true, false, Option, none, some, List, [], ◌∷◌, ◌++◌, arith, length,
}
use bachi_coin.Dict.{Key, Dict}
use bachi_coin.Block.{Block, BlockStatus}
use bachi_coin.Chain.{
  Reorganization, plan_from_chains, get_chain_to_genesis, validate_chain_structure_batch,
  find_common_ancestor, take_until,
}
use bachi_coin.Chain.Fork.{plan_from_chains-forks, NoneIn}
use bachi_coin.Chain.Structure.{IsLinked, validate_chain_structure_batch-IsLinked}
use bachi_coin.Chain.Walk.{IsAcyclic, get_chain_to_genesis-returns}
use bachi_coin.BlockIndex.{BlockStore, create_block_with_index}
use bachi_coin.BlockIndex.Indexed.{IsIndexed, create_block_with_index-IsIndexed}
use bachi_coin.BlockIndex.Runs.{
  BlockCall, create, update_status, delete, rebuild, cleanup, after_calls, after_calls-IsIndexed,
}
use bachi_coin.Fee.{calculate_next_base_fee}
use bachi_coin.Fee.Bounds.{NextFee, calculate_next_base_fee-NextFee}

abbrev flat_block : Key → Option Key → ℕ → Block
flat_block hash parent height = record {
  block_hash = hash;
  parent_hash = parent;
  height = height;
  slot = height;
  epoch = 0;
  header = none;
  body = none;
  status = BlockStatus.proposed;
  state_processed = false;
  is_justified = false;
  is_finalized = false;
}

abbrev plan0 : Reorganization
plan0 = record {
  common_ancestor = 7;
  blocks_to_unmark = 9 ∷ 8 ∷ [];
  blocks_to_mark = 10 ∷ [];
  reorg_depth = 2;
}

planned : plan_from_chains (9 ∷ 8 ∷ 7 ∷ 6 ∷ []) (10 ∷ 7 ∷ 6 ∷ []) ≡ some plan0
unfolding plan_from_chains find_common_ancestor take_until
planned = refl

plan_from_chains-forks_example :
    ((rest : List Key) × (9 ∷ 8 ∷ 7 ∷ 6 ∷ []
        ≡ plan0.blocks_to_unmark ++ plan0.common_ancestor ∷ rest))
    × ((rest : List Key) × (10 ∷ 7 ∷ 6 ∷ [] ≡ plan0.blocks_to_mark ++ plan0.common_ancestor ∷ rest))
    × NoneIn (9 ∷ 8 ∷ 7 ∷ 6 ∷ []) plan0.blocks_to_mark
    × (plan0.reorg_depth ≡ length plan0.blocks_to_unmark)
plan_from_chains-forks_example =
    plan_from_chains-forks (9 ∷ 8 ∷ 7 ∷ 6 ∷ []) (10 ∷ 7 ∷ 6 ∷ []) plan0 planned

abbrev chain0 : List Block
chain0 = flat_block 6 (some 2) 0 ∷ flat_block 7 (some 6) 1 ∷ flat_block 8 (some 7) 2 ∷ []

validate_chain_structure_batch-IsLinked_example :
    ((validate_chain_structure_batch chain0).0 ≡ true) ↔ IsLinked chain0
validate_chain_structure_batch-IsLinked_example = validate_chain_structure_batch-IsLinked chain0

abbrev blocks0 : Dict Block
blocks0 = (6, flat_block 6 none 0) ∷ (7, flat_block 7 (some 6) 1) ∷ []

blocks0-IsAcyclic : IsAcyclic (λ k. k) blocks0
blocks0-IsAcyclic = record { before = λ k p b e e'. ground (arith, e, e') }

genesis_reached : (chain : List Key) × (get_chain_to_genesis 9 blocks0 7 ≡ some chain)
genesis_reached = get_chain_to_genesis-returns (λ k. k) blocks0 7 blocks0-IsAcyclic

calculate_next_base_fee-NextFee_example :
    (next : ℕ) × (calculate_next_base_fee 20000000 30000000 2000000000 ≡ some next)
    × NextFee 20000000 30000000 2000000000 next
calculate_next_base_fee-NextFee_example =
    calculate_next_base_fee-NextFee 20000000 30000000 2000000000 (omega arith) (omega arith)
      (omega arith)

abbrev empty_store : BlockStore
empty_store = record { records = []; index = []; chain_tip_hash = none; chain_height = none }

empty_store-IsIndexed : IsIndexed empty_store
empty_store-IsIndexed = record { same = λ hash. refl }

abbrev one_block : BlockStore
one_block = (create_block_with_index (flat_block 6 none 0) empty_store).1

one_block-IsIndexed : IsIndexed one_block
one_block-IsIndexed =
    create_block_with_index-IsIndexed (flat_block 6 none 0) empty_store empty_store-IsIndexed

abbrev block_calls : List BlockCall
block_calls =
    create (flat_block 7 (some 6) 1)
    ∷ update_status 6 BlockStatus.finalized
    ∷ delete 9
    ∷ delete 7
    ∷ rebuild
    ∷ cleanup
    ∷ []

after_calls-IsIndexed_example : IsIndexed (after_calls block_calls one_block)
after_calls-IsIndexed_example = after_calls-IsIndexed block_calls one_block one_block-IsIndexed
