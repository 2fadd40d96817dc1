-- ===== src/Ledger/Blocks.antt =====
-- Processing a block from end to end: `update_block_state` of postprocess_state.py, a second call
-- on the same block, the transaction records, and a call that fails half way.
use bachi_coin.Prelude.{
  ℕ, ◌≡◌, refl, ap, sym, ◌∙◌, Bool, true, false, ◌&&◌, none, some, arith, ℤ, pos, ◌+ℤ◌, ◌≤ℤ◌, ◌==◌,
  if◌then◌else◌, Bool-cases, Option-cases, inl, inr, List, [], ◌∷◌, length, any_of,
}
use bachi_coin.Dict.{Key, Dict, get, contains, get-put, AllValues}
use bachi_coin.Exec.{Result, ok, err, key_error}
use bachi_coin.Tx.{Tx}
use bachi_coin.Block.{Block, transactions_of, height_of}
use bachi_coin.Wallet.{Rounding, IsExact, Accounts}
use bachi_coin.Ledger.{TxRecord, Ledger, Run, Env}
use bachi_coin.Ledger.Process.{
  UpdateResult, update_block_state, process_found, apply_block, apply_result, make_env, start_run,
  run_block, finish_block, get_ledger_balance, nothing_done, already_processed, update_tx_records,
  confirm_tx,
}
use bachi_coin.Ledger.Totals.{IsSound, total}
use bachi_coin.Ledger.Moves.{Moves}
use bachi_coin.Ledger.Conserve.{block_supply, sum_amounts, AllPositive, run_block-Moves}

-- What a call that returns has done to the total of all wallets.
abbrev pub Supplies : ℤ → Ledger → Result UpdateResult × Ledger → Type 0
Supplies change l (ok _, l') =
    AllValues IsSound l'.nodes × (get_ledger_balance l' ≡ get_ledger_balance l +ℤ change)
Supplies change l (err _, l') = Unit

apply_result-Supplies :
    (b : Block) (l : Ledger) (change : ℤ) (y : Result (Unit {0}) × Run)
    → Moves (start_run l) change y
    → Supplies change l (apply_result b y)
unfolding apply_result finish_block total get_ledger_balance
apply_result-Supplies b l change (ok _, s) h = (h.0, h.1)
apply_result-Supplies b l change (err e, s) h = tt

apply_block-eq :
    (env : Env) (b : Block) (l : Ledger)
    → apply_result b (run_block env (transactions_of b) (start_run l)) ≡ apply_block env b l
unfolding apply_block
apply_block-eq env b l = refl

process_found-eq :
    (r : Rounding) (addresses : Dict ℕ) (hash : Key) (l : Ledger) (b : Block) (a : Accounts)
    → b.state_processed ≡ false
    → get 0 l.nodes ≡ some a
    → update_block_state r addresses hash l ≡ process_found r addresses hash (some b) l
    → update_block_state r addresses hash l ≡ apply_block (make_env r addresses a) b l
unfolding process_found
process_found-eq r addresses hash l b a new at p = p ∙ ground (arith, new, at)

update_block_state-found :
    (r : Rounding) (addresses : Dict ℕ) (hash : Key) (l : Ledger) (b : Block)
    → get hash l.blocks ≡ some b
    → update_block_state r addresses hash l ≡ process_found r addresses hash (some b) l
unfolding update_block_state
update_block_state-found r addresses hash l b found = rw found refl

module _ (r : Rounding) (limit : ℕ) (exact : IsExact r limit) (addresses : Dict ℕ) (hash : Key)
    (l : Ledger) {b : Block} {a : Accounts} (found : get hash l.blocks ≡ some b) where
  -- Take a block that is stored and not yet processed, whose amounts and fees are not negative,
  -- and a ledger whose wallet indexes repeat their records, with no negative balance, and whose
  -- total leaves room for all amounts of the block in the range of exact floats. If
  -- `update_block_state` returns, the ledger is sound again, and its total has changed by exactly
  -- what the unconfirmed transactions of the block mean to add.
  pub update_block_state-Supplies :
      b.state_processed ≡ false
      → get 0 l.nodes ≡ some a
      → AllPositive (transactions_of b)
      → AllValues IsSound l.nodes
      → get_ledger_balance l +ℤ sum_amounts (transactions_of b) ≤ℤ pos limit
      → Supplies
          (block_supply (make_env r addresses a) l.txs (transactions_of b))
          l
          (update_block_state r addresses hash l)
  unfolding apply_block total make_env
  update_block_state-Supplies new at p sound q =
      rw
        (process_found-eq r addresses hash l b a new at
          (update_block_state-found r addresses hash l b found))
        (apply_result-Supplies b l (block_supply (make_env r addresses a) l.txs (transactions_of b))
          (run_block (make_env r addresses a) (transactions_of b) (start_run l))
          (run_block-Moves (make_env r addresses a) limit exact (transactions_of b) l p sound q))

apply_result-stored :
    (b : Block) (y : Result (Unit {0}) × Run) (res : UpdateResult) (l' : Ledger)
    → apply_result b y ≡ (ok res, l')
    → get b.block_hash l'.blocks ≡ some (record b { state_processed = true })
unfolding apply_result finish_block
apply_result-stored b (ok _, s) res l' e =
    let same : (finish_block b s) ≡ l' = ap (λ y. y.1) e in
    rw (← same) (
      ground (
        arith,
        get-put b.block_hash b.block_hash (record b { state_processed = true }) s.ledger.blocks,
      ))
apply_result-stored b (err x, s) res l' e = cc

update_block_state-old :
    (r : Rounding) (addresses : Dict ℕ) (hash : Key) (l : Ledger) (b : Block)
    → get hash l.blocks ≡ some b
    → b.state_processed ≡ true
    → update_block_state r addresses hash l
      ≡ (ok (nothing_done hash (length (transactions_of b)) (already_processed hash)), l)
unfolding process_found
update_block_state-old r addresses hash l b found old =
    update_block_state-found r addresses hash l b found ∙ ground (arith, old)

update_block_state-no_node :
    (r : Rounding) (addresses : Dict ℕ) (hash : Key) (l : Ledger) (b : Block)
    → get hash l.blocks ≡ some b
    → b.state_processed ≡ false
    → get 0 l.nodes ≡ none
    → update_block_state r addresses hash l ≡ (err key_error, l)
unfolding process_found
update_block_state-no_node r addresses hash l b found new missing =
    update_block_state-found r addresses hash l b found ∙ ground (arith, new, missing)

-- A second call for a stored block, after a call that returned, changes nothing and reports that
-- the block is processed already: no transaction of it is applied twice.
pub update_block_state-repeat :
    (r : Rounding) (addresses : Dict ℕ) (l l' : Ledger) (b : Block) (res : UpdateResult)
    → get b.block_hash l.blocks ≡ some b
    → update_block_state r addresses b.block_hash l ≡ (ok res, l')
    → update_block_state r addresses b.block_hash l' ≡ (
      ok (nothing_done b.block_hash (length (transactions_of b)) (already_processed b.block_hash)),
      l',
    )
update_block_state-repeat r addresses l l' b res found e =
    let again = update_block_state-old r addresses b.block_hash in
    elim (Bool-cases b.state_processed) [
      | inl old ↦
          let same : l ≡ l' = ap (λ y. y.1) (sym (again l b found old) ∙ e) in
          rw (← same) (again l b found old)
      | inr new ↦ elim (Option-cases (get 0 l.nodes)) [
        | inl missing ↦
            cc (e, update_block_state-no_node r addresses b.block_hash l b found new missing)
        | inr (a, at) ↦
            let stored =
              apply_result-stored b
                (run_block (make_env r addresses a) (transactions_of b) (start_run l)) res l' in
            again l' (record b { state_processed = true })
              (stored (
                apply_block-eq (make_env r addresses a) b l
                ∙ sym (
                    process_found-eq r addresses b.block_hash l b a new at
                      (update_block_state-found r addresses b.block_hash l b found))
                ∙ e))
              refl
      ]
    ]

abbrev pub confirmed_record : Block → TxRecord
confirmed_record b = record {
  confirmed = true;
  block_hash = b.block_hash;
  block_number = height_of b;
}

abbrev pub is_listed : Key → List Tx → Bool
is_listed hash txs = any_of (λ tx. tx.tx_hash == hash) txs

get-confirm_tx :
    (b : Block) (tx : Tx) (hash : Key) (d : Dict TxRecord)
    → get hash (confirm_tx b tx d)
      ≡ (if (tx.tx_hash == hash) && contains hash d then some (confirmed_record b) else get hash d)
unfolding confirm_tx
get-confirm_tx b tx hash d = ground (arith, get-put tx.tx_hash hash (confirmed_record b) d)

-- After a block, the record of a transaction is confirmed at that block if the block lists the
-- transaction and it had a record; every other record is as before, and none is made.
pub get-update_tx_records :
    (b : Block) (txs : List Tx) (hash : Key) (d : Dict TxRecord)
    → get hash (update_tx_records b txs d)
      ≡ (if is_listed hash txs && contains hash d then some (confirmed_record b) else get hash d)
unfolding update_tx_records
get-update_tx_records b [] hash d = refl
get-update_tx_records b (tx ∷ txs) hash d =
    ground (arith, get-update_tx_records b txs hash (confirm_tx b tx d), get-confirm_tx b tx hash d)
