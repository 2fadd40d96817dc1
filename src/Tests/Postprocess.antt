-- ===== src/Tests/Postprocess.antt =====
-- Post-processing a chain of two empty blocks.
use bachi_coin.Prelude.{ℕ, ◌≡◌, refl, true, none, some, List, [], ◌∷◌, arith}
use bachi_coin.Dict.{Key}
use bachi_coin.Exec.{Result, ok, err, block_failed}
use bachi_coin.Block.{Block}
use bachi_coin.Ledger.{Ledger}
use bachi_coin.Ledger.Process.{update_block_state}
use bachi_coin.Postprocess.{
  Peers, ChainState, best_node, first_peer, blocks_to_process, run_postprocess, score_of, is_above,
}
use bachi_coin.Postprocess.Processed.{IsKeyed, AllDone}
use bachi_coin.Postprocess.Walk.{IsForward}
use bachi_coin.Postprocess.Repeat.{
  alone, run_postprocess-AllDone, run_postprocess-repeat, run_postprocess-returns,
  run_postprocess-foreign,
}
use bachi_coin.Tests.Balances.{exact_floats, addresses0, ledger0, block_of}

abbrev first_block : Block
first_block = block_of 501 []

abbrev second_block : Block
second_block = record (block_of 502 []) { parent_hash = some 501; height = 2 }

abbrev done : Block → Block
done b = record b { state_processed = true }

abbrev ledger2 : Ledger
ledger2 = record ledger0 { blocks = (501, first_block) ∷ (502, second_block) ∷ [] }

abbrev ledger2_done : Ledger
ledger2_done = record ledger0 { blocks = (501, done first_block) ∷ (502, done second_block) ∷ [] }

abbrev chain : ChainState
chain = record {
  chain_tip_hash = some 502;
  chain_height = some 2;
  justified_hash = none;
  finalized_hash = none;
}

ledger2-IsKeyed : IsKeyed ledger2.blocks
ledger2-IsKeyed = record { keyed = λ hash b e. ground (arith, e) }

first_run :
    run_postprocess exact_floats addresses0 9 none
      (some (alone exact_floats addresses0 chain))
      ledger2
    ≡ some (ok 0, ledger2_done)
unfolding run_postprocess update_block_state score_of is_above
first_run = refl

run_postprocess-AllDone_example :
    (bs : List Block) × (blocks_to_process 9 none
        (first_peer (alone exact_floats addresses0 chain) ledger2)
      ≡ some bs)
    × AllDone exact_floats addresses0 bs ledger2 ledger2_done
unfolding best_node
run_postprocess-AllDone_example =
    run_postprocess-AllDone exact_floats addresses0 9 none (alone exact_floats addresses0 chain)
      ledger2 ledger2_done 0 ledger2-IsKeyed first_run

run_postprocess-repeat_example :
    run_postprocess exact_floats addresses0 9 none
      (some (alone exact_floats addresses0 chain))
      ledger2_done
    ≡ some (ok 0, ledger2_done)
run_postprocess-repeat_example =
    run_postprocess-repeat exact_floats addresses0 8 chain ledger2 ledger2_done 0 ledger2-IsKeyed
      first_run

-- The hashes themselves rank these blocks.
abbrev rank : Key → ℕ
rank k = k

ledger2-IsForward : IsForward rank ledger2.blocks
ledger2-IsForward = record { before = λ hash b e. ground (arith, e) }

run_postprocess-returns_example :
    (y : Result ℕ × Ledger) × (run_postprocess exact_floats addresses0 504 none
        (some (alone exact_floats addresses0 chain))
        ledger2
      ≡ some y)
unfolding best_node
run_postprocess-returns_example =
    run_postprocess-returns exact_floats addresses0 rank 503 (alone exact_floats addresses0 chain)
      ledger2 502 ledger2-IsForward refl (omega arith)

-- A second node with a longer chain, of which the first node has no block.
abbrev far_block : Block
far_block = record (block_of 601 []) { height = 7 }

abbrev far_peers : Peers
far_peers = record {
  first = chain;
  others =
      record {
        chain = record chain { chain_tip_hash = some 601; chain_height = some 7 };
        blocks = (601, far_block) ∷ [];
      }
      ∷ [];
}

far_walk :
    blocks_to_process 9 none (best_node (first_peer far_peers ledger2) far_peers.others)
    ≡ some (far_block ∷ [])
unfolding blocks_to_process best_node score_of is_above
far_walk = refl

run_postprocess-foreign_example :
    run_postprocess exact_floats addresses0 9 none (some far_peers) ledger2
    ≡ some (err block_failed, ledger2)
run_postprocess-foreign_example =
    run_postprocess-foreign exact_floats addresses0 9 none far_peers ledger2 far_block [] far_walk
      refl
