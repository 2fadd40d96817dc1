-- ===== src/Postprocess/Processed.antt =====
-- What a run of the post-processing leaves behind: the blocks that it found are processed.
use mathlib.Core.Path.{subst}
use bachi_coin.Prelude.{
  ℕ, suc, ◌≡◌, ◌≢◌, refl, ap, sym, ◌∙◌, inl, inr, Bool, true, false, none, some, List, [], ◌∷◌,
  arith, Bool-cases, Option-cases, if◌then◌else◌, All,
}
use bachi_coin.Dict.{Key, Dict, get, put, get-put}
use bachi_coin.Exec.{Error, Result, ok, err, Exec, pure, ◌>>=◌, bind_inv}
use bachi_coin.Block.{Block, transactions_of}
use bachi_coin.Wallet.{Rounding}
use bachi_coin.Ledger.{Ledger, Run}
use bachi_coin.Ledger.Process.{
  UpdateResult, Message, update_block_state, process_found, apply_block, apply_result, finish_block,
  make_env, run_block, start_run, nothing_done, block_not_found, already_processed,
}
use bachi_coin.Ledger.Frame.{blocks_of, run_block-Keeps}
use bachi_coin.Postprocess.{process_block, process_all, inspect}

-- Each block is stored under its own hash.
pub record IsKeyed (blocks : Dict Block) : Type 0 where
  pub keyed : (hash : Key) (b : Block) → get hash blocks ≡ some b → b.block_hash ≡ hash

abbrev pub is_done : Key → Dict Block → Bool
is_done hash blocks = elim (get hash blocks) [ none ↦ false | some b ↦ b.state_processed ]

-- What a call of `update_block_state` may do with the stored blocks.
data Updated (hash : Key) (l : Ledger) (y : Result UpdateResult × Ledger) : Type 0 where
  raised : (e : Error) → y.0 ≡ err e → Updated hash l y
  missing :
      get hash l.blocks ≡ none
      → y ≡ (ok (nothing_done hash 0 block_not_found), l)
      → Updated hash l y
  old : is_done hash l.blocks ≡ true → y.1 ≡ l → Updated hash l y
  marked :
      (b : Block)
      → get hash l.blocks ≡ some b
      → y.1.blocks ≡ put b.block_hash (record b { state_processed = true }) l.blocks
      → Updated hash l y

apply_result-Updated :
    (hash : Key) (l : Ledger) (b : Block) (y : Result (Unit {0}) × Run)
    → get hash l.blocks ≡ some b
    → blocks_of y.1 ≡ l.blocks
    → Updated hash l (apply_result b y)
unfolding apply_result finish_block
apply_result-Updated hash l b (ok _, s) found kept =
    marked b found (ap (put b.block_hash (record b { state_processed = true })) kept)
apply_result-Updated hash l b (err e, s) found kept = raised e refl

module _ (r : Rounding) (addresses : Dict ℕ) (hash : Key) (l : Ledger) where
  process_found-Updated :
      (b : Block)
      → get hash l.blocks ≡ some b
      → Updated hash l (process_found r addresses hash (some b) l)
  unfolding process_found apply_block
  process_found-Updated b found = elim (Bool-cases b.state_processed) [
    | inl done ↦ rw done (old (ground (arith, found, done)) refl)
    | inr new ↦ elim (Option-cases (get 0 l.nodes)) [
      | inl e ↦ rw (new, e) (raised _ refl)
      | inr (a, e) ↦
          rw (new, e)
            (apply_result-Updated hash l b
              (run_block (make_env r addresses a) (transactions_of b) (start_run l)) found
              (run_block-Keeps (make_env r addresses a) (transactions_of b) (start_run l)))
    ]
  ]

  update_block_state-Updated : Updated hash l (update_block_state r addresses hash l)
  unfolding update_block_state process_found
  update_block_state-Updated = elim (Option-cases (get hash l.blocks)) [
    | inl e ↦ rw e (missing e refl)
    | inr (b, e) ↦ rw e (process_found-Updated b e)
  ]

-- How the stored blocks go on: a block is marked, and no mark is lost.
pub record Advances (hash : Key) (l l' : Ledger) : Type 0 where
  pub keyed : IsKeyed l'.blocks
  pub done : is_done hash l'.blocks ≡ true
  pub kept : (other : Key) → is_done other l.blocks ≡ true → is_done other l'.blocks ≡ true

put-Advances :
    (hash : Key) (l l' : Ledger) (b : Block)
    → IsKeyed l.blocks
    → get hash l.blocks ≡ some b
    → l'.blocks ≡ put b.block_hash (record b { state_processed = true }) l.blocks
    → Advances hash l l'
put-Advances hash l l' b h found e =
    let b' : Block = record b { state_processed = true } in
    let same = h.keyed hash b found in
    rw e (record {
      keyed = record {
        keyed = λ other c at.
            ground (arith, at, same, get-put b.block_hash other b' l.blocks, h.keyed other c);
      };
      done = ground (arith, same, get-put b.block_hash hash b' l.blocks);
      kept = λ other p. ground (arith, p, get-put b.block_hash other b' l.blocks);
    })

inspect-state :
    (es : List Message) (count : ℕ) (s s' : Ledger) (x : Bool)
    → inspect es count s ≡ (ok x, s')
    → s ≡ s'
unfolding inspect
inspect-state [] count s s' x e = cc
inspect-state (already_processed hash ∷ []) count s s' x e = cc
inspect-state (m ∷ ms) count s s' x e = ground arith

inspect-missing :
    (hash : Key) (count : ℕ) (s s' : Ledger) (x : Bool)
    → inspect (block_not_found ∷ []) count s ≢ (ok x, s')
unfolding inspect
inspect-missing hash count s s' x e = cc

abbrev inspected : Result UpdateResult × Ledger → Exec Ledger Bool
inspected y = (λ _. y) >>= λ res. inspect res.errors res.processed_tx_count

Updated-Advances :
    (hash : Key) (l l' : Ledger) (y : Result UpdateResult × Ledger) (x : Bool)
    → IsKeyed l.blocks
    → Updated hash l y
    → inspected y l ≡ (ok x, l')
    → Advances hash l l'
Updated-Advances hash l l' (err e, l1) x h u p = cc
Updated-Advances hash l l' (ok res, l1) x h (raised e q) p = cc
Updated-Advances hash l l' (ok res, l1) x h (missing q e) p =
    absurd (inspect-missing hash 0 l l' x (subst (λ z. inspected z l ≡ (ok x, l')) e p))
Updated-Advances hash l l' (ok res, l1) x h (old q e) p =
    rw (← inspect-state res.errors res.processed_tx_count l1 l' x p, e)
      (record { keyed = h; done = q; kept = λ other k. k })
Updated-Advances hash l l' (ok res, l1) x h (marked b found e) p =
    put-Advances hash l l' b h found (
      ap (λ (l : Ledger). l.blocks)
        (sym (inspect-state res.errors res.processed_tx_count l1 l' x p))
      ∙ e)

module _ (r : Rounding) (addresses : Dict ℕ) where
  process_block-Advances :
      (hash : Key) (l l' : Ledger) (x : Bool)
      → IsKeyed l.blocks
      → process_block r addresses hash l ≡ (ok x, l')
      → Advances hash l l'
  unfolding process_block
  process_block-Advances hash l l' x h p =
      Updated-Advances hash l l' (update_block_state r addresses hash l) x h
        (update_block_state-Updated r addresses hash l) p

  -- After a loop over blocks that returns, each of them is processed, and no mark is lost.
  pub record AllDone (bs : List Block) (l l' : Ledger) : Type 0 where
    pub keyed : IsKeyed l'.blocks
    pub done : All (λ b. is_done b.block_hash l'.blocks ≡ true) bs
    pub kept : (other : Key) → is_done other l.blocks ≡ true → is_done other l'.blocks ≡ true

  pub process_all-AllDone :
      (bs : List Block) (l l' : Ledger) (n : ℕ)
      → IsKeyed l.blocks
      → process_all r addresses bs l ≡ (ok n, l')
      → AllDone bs l l'
  unfolding process_all
  process_all-AllDone [] l l' n h p =
      let same : l ≡ l' = ap (λ y. y.1) p in
      rw (← same) (record { keyed = h; done = tt; kept = λ other k. k })
  process_all-AllDone (b ∷ bs) l l' n h p =
      let (x, (l1, (q, p1))) =
        bind_inv (process_block r addresses b.block_hash)
          (λ had_txs. do
            count ← process_all r addresses bs
            pure (if had_txs then suc count else count))
          n l l' p in
      let (m, (l2, (q2, p2))) =
        bind_inv (process_all r addresses bs) (λ count. pure (if x then suc count else count)) n l1
          l' p1 in
      let first = process_block-Advances b.block_hash l l1 x h q in
      let same : l2 ≡ l' = ap (λ y. y.1) p2 in
      let rest = process_all-AllDone bs l1 l' m first.keyed (rw same at q2) in
      record {
        keyed = rest.keyed;
        done = (rest.kept b.block_hash first.done, rest.done);
        kept = λ other k. rest.kept other (first.kept other k);
      }
