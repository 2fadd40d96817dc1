-- ===== src/Postprocess/Repeat.antt =====
-- Whole runs of the post-processing: that they end, what a second run does, and a best chain whose
-- blocks the first node does not have.
use bachi_coin.Prelude.{
  ℕ, suc, ◌<◌, ◌≡◌, refl, ap, sym, ◌∙◌, inl, inr, true, false, Option, none, some, List, [], ◌∷◌,
  arith, Bool-cases, Option-cases, if◌then◌else◌, ◌==◌,
}
use bachi_coin.Dict.{Key, Dict, get}
use bachi_coin.Exec.{Result, ok, err, block_failed, pure, ◌>>=◌, bind_err}
use bachi_coin.Block.{Block}
use bachi_coin.Wallet.{Rounding}
use bachi_coin.Ledger.{Ledger}
use bachi_coin.Ledger.Process.{update_block_state, process_found}
use bachi_coin.Postprocess.{
  Peers, ChainState, load_block, unprocessed, blocks_to_process, best_node, first_peer, process_all,
  process_block, run_postprocess, inspect, process_found_blocks,
}
use bachi_coin.Postprocess.Walk.{
  IsForward, Found, unprocessed-Found, unprocessed-none, unprocessed-round, tip-All, is_first,
}
use bachi_coin.Postprocess.Processed.{IsKeyed, is_done, AllDone, process_all-AllDone}

-- A tip that can be loaded is stored under its hash.
load_block-some :
    (o : Option Key) (blocks : Dict Block) (b : Block)
    → load_block o blocks ≡ some b
    → (hash : Key) × (o ≡ some hash) × ((hash == 0) ≡ false) × (get hash blocks ≡ some b)
load_block-some none blocks b e = cc
load_block-some (some hash) blocks b e = elim (Bool-cases (hash == 0)) [
  | inl p ↦ cc (ap (λ t. if t then none else get hash blocks) p)
  | inr p ↦ (hash, refl, p, sym (ap (λ t. if t then none else get hash blocks) p) ∙ e)
]

is_done-some :
    (hash : Key) (blocks : Dict Block)
    → is_done hash blocks ≡ true
    → (b : Block) × (get hash blocks ≡ some b) × (b.state_processed ≡ true)
is_done-some hash blocks e = elim (Option-cases (get hash blocks)) [
  | inl p ↦ ground (arith, p)
  | inr (b, p) ↦ (b, p, ground (arith, p))
]

process_block-missing :
    (r : Rounding) (addresses : Dict ℕ) (hash : Key) (l : Ledger)
    → get hash l.blocks ≡ none
    → process_block r addresses hash l ≡ (err block_failed, l)
unfolding process_block update_block_state process_found inspect
process_block-missing r addresses hash l missing = ground (arith, missing)

module _ (r : Rounding) (addresses : Dict ℕ) where
  run_postprocess-eq :
      (fuel : ℕ) (hash : Option Key) (peers : Peers) (l : Ledger) (found : Option (List Block))
      → blocks_to_process fuel hash (best_node (first_peer peers l) peers.others) ≡ found
      → run_postprocess r addresses fuel hash (some peers) l
        ≡ process_found_blocks r addresses found l
  unfolding run_postprocess
  run_postprocess-eq fuel hash peers l found e = ap (λ o. process_found_blocks r addresses o l) e

  -- If a run returns, every block that it found on the chosen chain is processed afterwards, in
  -- the store of the first node, and no other block has lost its mark.
  pub run_postprocess-AllDone :
      (fuel : ℕ) (hash : Option Key) (peers : Peers) (l l' : Ledger) (n : ℕ)
      → IsKeyed l.blocks
      → run_postprocess r addresses fuel hash (some peers) l ≡ some (ok n, l')
      → (bs : List Block) × (blocks_to_process fuel hash
            (best_node (first_peer peers l) peers.others)
          ≡ some bs)
        × AllDone r addresses bs l l'
  run_postprocess-AllDone fuel hash peers l l' n h e =
      elim (Option-cases
        (blocks_to_process fuel hash (best_node (first_peer peers l) peers.others))) [
          | inl p ↦ cc (run_postprocess-eq fuel hash peers l none p)
          | inr (bs, p) ↦ (
            bs,
            p,
            process_all-AllDone r addresses bs l l' n h
                (cc (run_postprocess-eq fuel hash peers l (some bs) p)),
          )
        ]

  abbrev pub alone : ChainState → Peers
  alone chain = record { first = chain; others = [] }

  tip_walk :
      (fuel : ℕ) (chain : ChainState) (l : Ledger)
      → blocks_to_process fuel none (best_node (first_peer (alone chain) l) [])
        ≡ unprocessed fuel l.blocks (load_block chain.chain_tip_hash l.blocks) []
  unfolding blocks_to_process best_node
  tip_walk fuel chain l = refl

  module _ (fuel : ℕ) (chain : ChainState) (l : Ledger) where
    run_nothing :
        unprocessed (suc fuel) l.blocks (load_block chain.chain_tip_hash l.blocks) [] ≡ some []
        → run_postprocess r addresses (suc fuel) none (some (alone chain)) l ≡ some (ok 0, l)
    unfolding process_all
    run_nothing e =
        run_postprocess-eq (suc fuel) none (alone chain) l (some [])
          (tip_walk (suc fuel) chain l ∙ e)

    run_no_tip :
        load_block chain.chain_tip_hash l.blocks ≡ none
        → run_postprocess r addresses (suc fuel) none (some (alone chain)) l ≡ some (ok 0, l)
    run_no_tip e =
        run_nothing
          (ap (λ o. unprocessed (suc fuel) l.blocks o []) e ∙ unprocessed-none fuel l.blocks [])

    run_done_tip :
        (b : Block)
        → load_block chain.chain_tip_hash l.blocks ≡ some b
        → b.state_processed ≡ true
        → run_postprocess r addresses (suc fuel) none (some (alone chain)) l ≡ some (ok 0, l)
    run_done_tip b e done = run_nothing (
        ap (λ o. unprocessed (suc fuel) l.blocks o []) e
        ∙ unprocessed-round fuel l.blocks b [] true (is_first b) done refl)

  same_again :
      (fuel : ℕ) (chain : ChainState) (l l' : Ledger) (n : ℕ)
      → run_postprocess r addresses fuel none (some (alone chain)) l ≡ some (ok n, l')
      → run_postprocess r addresses fuel none (some (alone chain)) l ≡ some (ok 0, l)
      → run_postprocess r addresses fuel none (some (alone chain)) l' ≡ some (ok 0, l')
  same_again fuel chain l l' n e p = let same : l ≡ l' = cc in rw (← same) p

  -- With one node, a run after a run that returned processes nothing and changes nothing.
  pub run_postprocess-repeat :
      (fuel : ℕ) (chain : ChainState) (l l' : Ledger) (n : ℕ)
      → IsKeyed l.blocks
      → run_postprocess r addresses (suc fuel) none (some (alone chain)) l ≡ some (ok n, l')
      → run_postprocess r addresses (suc fuel) none (some (alone chain)) l' ≡ some (ok 0, l')
  run_postprocess-repeat fuel chain l l' n h e =
      elim (Option-cases (load_block chain.chain_tip_hash l.blocks)) [
        | inl p ↦ same_again (suc fuel) chain l l' n e (run_no_tip fuel chain l p)
        | inr (b, p) ↦ elim (Bool-cases b.state_processed) [
          | inl done ↦ same_again (suc fuel) chain l l' n e (run_done_tip fuel chain l b p done)
          | inr new ↦
              let (bs, q, all) = run_postprocess-AllDone (suc fuel) none (alone chain) l l' n h e in
              let walk =
                sym (ap (λ o. unprocessed (suc fuel) l.blocks o []) p)
                ∙ (sym (tip_walk (suc fuel) chain l) ∙ q) in
              let marked =
                tip-All (λ b. is_done b.block_hash l'.blocks ≡ true) fuel l.blocks b bs new walk
                  all.done in
              let (hash, tip, named, at) = load_block-some chain.chain_tip_hash l.blocks b p in
              let own : b.block_hash ≡ hash = h.keyed hash b at in
              let (b', at', done) = is_done-some hash l'.blocks (rw own at marked) in
              run_done_tip fuel chain l' b' (rw (tip, named) at') done
        ]
      ]

  -- A run ends: where parents come before children in some ranking of the chosen node's blocks, a
  -- fuel above the rank of its tip by two is enough.
  pub run_postprocess-returns :
      (rank : Key → ℕ) (fuel : ℕ) (peers : Peers) (l : Ledger) (tip : Key)
      → let best = best_node (first_peer peers l) peers.others in
        IsForward rank best.blocks
        → best.chain.chain_tip_hash ≡ some tip
        → rank tip < fuel
        → (y : Result ℕ × Ledger) × (run_postprocess r addresses (suc fuel) none (some peers) l
            ≡ some y)
  unfolding blocks_to_process
  run_postprocess-returns rank fuel peers l tip h at p =
      let best = best_node (first_peer peers l) peers.others in
      let walk : Found (unprocessed (suc fuel) best.blocks (load_block (some tip) best.blocks) []) =
        elim (Bool-cases (tip == 0)) [
          | inl e ↦ rw e ([], unprocessed-none fuel best.blocks [])
          | inr e ↦ rw e (unprocessed-Found rank best.blocks h fuel tip [] p)
        ] in
      let (bs, q) = walk in
      let found : blocks_to_process (suc fuel) none best ≡ some bs =
        ap (λ o. unprocessed (suc fuel) best.blocks (load_block o best.blocks) []) at ∙ q in
      (process_all r addresses bs l, run_postprocess-eq (suc fuel) none peers l (some bs) found)

  -- Where the chain of another node is the best one and its oldest block without a mark is not in
  -- the store of the first node, a run raises and changes nothing.
  pub run_postprocess-foreign :
      (fuel : ℕ) (hash : Option Key) (peers : Peers) (l : Ledger) (b : Block) (bs : List Block)
      → blocks_to_process fuel hash (best_node (first_peer peers l) peers.others) ≡ some (b ∷ bs)
      → get b.block_hash l.blocks ≡ none
      → run_postprocess r addresses fuel hash (some peers) l ≡ some (err block_failed, l)
  unfolding process_all
  run_postprocess-foreign fuel hash peers l b bs e missing =
      run_postprocess-eq fuel hash peers l (some (b ∷ bs)) e
      ∙ ap some (
          bind_err (process_block r addresses b.block_hash)
            (λ had_txs. do
              count ← process_all r addresses bs
              pure (if had_txs then suc count else count))
            block_failed l l (process_block-missing r addresses b.block_hash l missing))
