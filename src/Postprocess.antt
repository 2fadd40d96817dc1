-- ===== src/Postprocess.antt =====
-- The orchestrator of block processing (src/BachiCoin/lib_postprocess/postprocess_blocks.py): it
-- chooses the node with the best chain and processes the blocks of that chain that are not
-- processed yet, oldest first. The blocks of the first node are those of the ledger, since
-- `update_block_state` reads and marks blocks there.
pub mod Processed
pub mod Walk
pub mod Repeat
use bachi_coin.Prelude.{
  ℕ, zero, suc, ◌+◌, Bool, true, false, ◌||◌, ◌&&◌, Option, none, some, List, [], ◌∷◌, ◌==◌, ltb,
  if◌then◌else◌,
}
use bachi_coin.Dict.{Key, Dict, get}
use bachi_coin.Exec.{Result, ok, err, Exec, pure, raise, ◌>>=◌, block_failed}
use bachi_coin.Block.{Block, height_of}
use bachi_coin.Chain.{genesis_parent, key_or_empty}
use bachi_coin.Wallet.{Rounding}
use bachi_coin.Ledger.{Ledger}
use bachi_coin.Ledger.Process.{UpdateResult, Message, already_processed, update_block_state}

-- What a node's block service says of its chain.
pub record ChainState : Type 0 where
  pub chain_tip_hash : Option Key
  pub chain_height : Option ℕ
  pub justified_hash : Option Key
  pub finalized_hash : Option Key

pub record Peer : Type 0 where
  pub chain : ChainState
  pub blocks : Dict Block

-- All node contexts: the chain of the first one, whose blocks are in the ledger, and the others.
pub record Peers : Type 0 where
  pub first : ChainState
  pub others : List Peer

-- `get_finalized_block`, `get_justified_block` and `get_chain_tip`: an empty hash is none.
abbrev pub load_block : Option Key → Dict Block → Option Block
load_block none blocks = none
load_block (some hash) blocks = if hash == 0 then none else get hash blocks

-- Heights are one higher than in the source, so that 0 is its -1.
abbrev pub block_height : Option Block → ℕ
block_height none = 0
block_height (some b) = suc (height_of b)

abbrev chain_height_of : Option ℕ → ℕ
chain_height_of none = 0
chain_height_of (some n) = suc n

-- `(finalized_height, justified_height, height)`
pub record Score : Type 0 where
  pub finalized : ℕ
  pub justified : ℕ
  pub height : ℕ

unfoldable pub score_of : Peer → Score
score_of p = record {
  finalized = block_height (load_block p.chain.finalized_hash p.blocks);
  justified = block_height (load_block p.chain.justified_hash p.blocks);
  height = chain_height_of p.chain.chain_height;
}

-- The order of tuples.
unfoldable pub is_above : Score → Score → Bool
is_above a b =
    ltb b.finalized a.finalized
    || (a.finalized == b.finalized)
      && (ltb b.justified a.justified || (a.justified == b.justified) && ltb b.height a.height)

-- The first element of the sorted list: a sort in reverse keeps the order of equal nodes.
unfoldable pub best_node : Peer → List Peer → Peer
best_node p [] = p
best_node p (q ∷ qs) = best_node (if is_above (score_of q) (score_of p) then q else p) qs

abbrev pub first_peer : Peers → Ledger → Peer
first_peer peers l = record { chain = peers.first; blocks = l.blocks }

-- `block.get("header", block).get("parent_hash")`, where a missing one is empty
abbrev pub parent_of : Block → Key
parent_of b = elim b.header [ none ↦ key_or_empty b.parent_hash | some h ↦ h.parent_hash ]

-- The walk from the tip; a `none` is out of fuel.
unfoldable pub unprocessed : ℕ → Dict Block → Option Block → List Block → Option (List Block)
unprocessed zero blocks current found = none
unprocessed (suc fuel) blocks none found = some found
unprocessed (suc fuel) blocks (some b) found =
    let parent = parent_of b in
    let rest = unprocessed fuel blocks (get parent blocks) (b ∷ found) in
    if b.state_processed
    then some found
    else if (parent == 0) || (parent == genesis_parent)
    then some (b ∷ found)
    else rest

abbrev requested : Option Block → List Block
requested none = []
requested (some b) = if b.state_processed then [] else b ∷ []

-- The first half of `run_postprocess`.
unfoldable pub blocks_to_process : ℕ → Option Key → Peer → Option (List Block)
unfolding unprocessed
blocks_to_process fuel none p =
    unprocessed fuel p.blocks (load_block p.chain.chain_tip_hash p.blocks) []
blocks_to_process fuel (some hash) p =
    if hash == 0
    then unprocessed fuel p.blocks (load_block p.chain.chain_tip_hash p.blocks) []
    else some (requested (get hash p.blocks))

-- The second half of `process_block`: a block that is processed already is no failure.
unfoldable pub inspect : List Message → ℕ → Exec Ledger Bool
inspect [] count = pure (ltb 0 count)
inspect (already_processed hash ∷ []) count = pure false
inspect _ count = raise block_failed

unfoldable pub process_block : Rounding → Dict ℕ → Key → Exec Ledger Bool
unfolding inspect
process_block r addresses hash = do
  result ← update_block_state r addresses hash
  inspect result.errors result.processed_tx_count

-- The loop over the blocks, which counts those with transactions.
unfoldable pub process_all : Rounding → Dict ℕ → List Block → Exec Ledger ℕ
unfolding process_block
process_all r addresses [] = pure 0
process_all r addresses (b ∷ bs) = do
  had_txs ← process_block r addresses b.block_hash
  count ← process_all r addresses bs
  pure (if had_txs then suc count else count)

abbrev process_found_blocks :
    Rounding → Dict ℕ → Option (List Block) → Ledger → Option (Result ℕ × Ledger)
process_found_blocks r addresses none l = none
process_found_blocks r addresses (some bs) l = some (process_all r addresses bs l)

abbrev run_with :
    Rounding → Dict ℕ → ℕ → Option Key → Option Peers → Ledger → Option (Result ℕ × Ledger)
run_with r addresses fuel hash none l = some (ok 0, l)
run_with r addresses fuel hash (some peers) l =
    process_found_blocks r addresses
      (blocks_to_process fuel hash (best_node (first_peer peers l) peers.others)) l

-- `run_postprocess`, with the hash of a block or without; no peers are no node contexts.
unfoldable pub run_postprocess :
    Rounding → Dict ℕ → ℕ → Option Key → Option Peers → Ledger → Option (Result ℕ × Ledger)
unfolding blocks_to_process best_node process_all
run_postprocess r addresses fuel hash peers l = run_with r addresses fuel hash peers l
