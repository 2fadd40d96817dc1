-- ===== src/Ledger/Unmapped.antt =====
-- A transfer that fails half way: its receiver is at no node that is known.
use bachi_coin.Prelude.{
  ℕ, ◌≡◌, refl, ap, ◌∙◌, none, some, Option, arith, ℤ, pos, ◌+ℤ◌, ◌-ℤ◌, ◌≤ℤ◌, ltb_ℤ, int_laws,
  parts_of_eq, false,
}
use bachi_coin.Dict.{Key, get, get-put}
use bachi_coin.Exec.{Result, ok, err, ◌>>=◌, ◌>>◌, bind_ok, bind_err, address_unmapped}
use bachi_coin.Tx.{Tx, TxType}
use bachi_coin.Wallet.{Wallet, Accounts, IsExact}
use bachi_coin.Ledger.{
  Run, Env, dispatch, debit_sender, map_get, find_wallet, credit_receiver, apply_debit, note_change,
  count_sender, credit_pool_with_gas, get_context_for_address, accounts_of, set_wallets,
}
use bachi_coin.Ledger.Totals.{AllSound, total, written, write_balance-eq, balance_bounds}
use bachi_coin.Ledger.Moves.{Moves, store_exact, apply_debit-eq}
use bachi_coin.Ledger.Handlers.{debit_sender-Moves}

credit_receiver-unmapped :
    (env : Env) (addr : Option Key) (d : ℤ) (s : Run)
    → map_get addr env.address_to_node_map ≡ none
    → credit_receiver env addr d s ≡ (err address_unmapped, s)
unfolding credit_receiver get_context_for_address
credit_receiver-unmapped env addr d s e = ground (arith, e)

-- Where a sender's wallet is.
pub record HasWallet (env : Env) (addr : Option Key) (s : Run) (node : ℕ) (a : Accounts) (wid : Key)
    (w : Wallet) : Type 0 where
  pub home : map_get addr env.address_to_node_map ≡ some node
  pub at_node : get node s.ledger.nodes ≡ some a
  pub known : find_wallet addr a ≡ some wid
  pub at_wallet : get wid a.wallets.records ≡ some w

-- The calls that follow the write of the balance return.
note-returns :
    (addr : Option Key) (node : ℕ) (wid : Key) (c n : ℤ) (a : Accounts) (w : Wallet) (s : Run)
    → get node s.ledger.nodes ≡ some a
    → get wid a.wallets.records ≡ some w
    → ((count_sender addr >> note_change node wid c n) s).0 ≡ ok tt
unfolding count_sender note_change accounts_of
note-returns none node wid c n a w s e h = rw (e, h) refl
note-returns (some addr) node wid c n a w s e h = rw (e, h) refl

not_below : (x : ℤ) → pos 0 ≤ℤ x → ltb_ℤ x (pos 0) ≡ false
not_below x h = ground arith

module _ (env : Env) (limit : ℕ) (exact : IsExact env.rounding limit) (addr : Option Key) (d : ℤ)
    (s : Run) (sound : AllSound s) (node : ℕ) (a : Accounts) (wid : Key) (w : Wallet)
    (has : HasWallet env addr s node a wid w) (positive : pos 0 ≤ℤ d) (covered : d ≤ℤ w.balance)
    (room : total s ≤ℤ pos limit) where
  context : get_context_for_address env addr s ≡ (ok (node, wid), s)
  unfolding get_context_for_address accounts_of
  context = ground (arith, has.home, has.at_node, has.known)

  abbrev after_write : Run
  after_write = set_wallets node a (written wid (record w { balance = w.balance -ℤ d }) a.wallets) s

  debited : apply_debit env.rounding node wid d s ≡ (ok (w.balance -ℤ d), after_write)
  debited =
      let bounds = balance_bounds s node wid sound has.at_node has.at_wallet in
      let same : env.rounding.store (w.balance -ℤ d) ≡ w.balance -ℤ d =
        store_exact env.rounding limit exact (w.balance -ℤ d) (omega int_laws) (omega int_laws) in
      let enough : ltb_ℤ (w.balance -ℤ d) (pos 0) ≡ false =
        not_below (w.balance -ℤ d) (omega int_laws) in
      rw (apply_debit-eq env.rounding limit exact node wid d s has.at_node has.at_wallet, enough)
        (write_balance-eq s node wid sound has.at_node has.at_wallet env.rounding (w.balance -ℤ d)
          same)

  debit_sender-returns : (debit_sender env addr d s).0 ≡ ok tt
  unfolding debit_sender
  debit_sender-returns =
      let w' = record w { balance = w.balance -ℤ d } in
      let a' = record a { wallets = written wid w' a.wallets } in
      let found =
        bind_ok (get_context_for_address env addr)
          (λ at. apply_debit env.rounding at.0 at.1 d >>= λ new.
            count_sender addr >> note_change at.0 at.1 (pos 0 -ℤ d) new)
          (node, wid) s s context in
      let wrote =
        bind_ok (apply_debit env.rounding node wid d)
          (λ new. count_sender addr >> note_change node wid (pos 0 -ℤ d) new) (w.balance -ℤ d) s
          after_write debited in
      ap (λ z. z.0) (found ∙ wrote)
      ∙ note-returns addr node wid (pos 0 -ℤ d) (w.balance -ℤ d) a' w' after_write
          (ground (arith, get-put node node a' s.ledger.nodes))
          (ground (arith, get-put wid wid w' a.wallets.records))

  paid :
      (y : Result (Unit {0}) × Run)
      → y.0 ≡ ok tt
      → Moves s (pos 0 -ℤ d) y
      → total y.1 ≡ total s -ℤ d
  paid (ok _, s') e h = omega (int_laws, parts_of_eq _ _ h.1)
  paid (err x, s') e h = cc

-- A transfer from a wallet that covers it, on a sound ledger within exact floats, to an address that
-- no node knows, raises after the sender has paid: the ledger that it leaves has lost the amount
-- and the fee.
pub transfer-unmapped_receiver :
    (env : Env) (limit : ℕ) (tx : Tx) (s : Run) (node : ℕ) (a : Accounts) (wid : Key) (w : Wallet)
    → IsExact env.rounding limit
    → AllSound s
    → HasWallet env tx.from_address s node a wid w
    → pos 0 ≤ℤ tx.amount +ℤ tx.total_fee
    → tx.amount +ℤ tx.total_fee ≤ℤ w.balance
    → total s ≤ℤ pos limit
    → map_get tx.to_address env.address_to_node_map ≡ none
    → let (answer, s') = dispatch env TxType.transfer tx s in
      (answer ≡ err address_unmapped) × (total s' ≡ total s -ℤ (tx.amount +ℤ tx.total_fee))
unfolding dispatch
transfer-unmapped_receiver env limit tx s node a wid w exact sound has positive covered room
      unmapped =
    let d = tx.amount +ℤ tx.total_fee in
    let y = debit_sender env tx.from_address d s in
    let returns =
      debit_sender-returns env limit exact tx.from_address d s sound node a wid w has positive
        covered room in
    let lost =
      paid env limit exact tx.from_address d s sound node a wid w has positive covered room y
        returns (debit_sender-Moves env limit exact tx.from_address d s sound positive room) in
    let raised =
      bind_ok (debit_sender env tx.from_address d)
        (λ _. credit_receiver env tx.to_address tx.amount >> credit_pool_with_gas env tx.total_fee)
        tt s y.1 (ap (λ r. (r, y.1)) returns)
      ∙ bind_err (credit_receiver env tx.to_address tx.amount)
          (λ _. credit_pool_with_gas env tx.total_fee) address_unmapped y.1 y.1
          (credit_receiver-unmapped env tx.to_address tx.amount y.1 unmapped) in
    (ap (λ z. z.0) raised, ap (λ z. total z.1) raised ∙ lost)
