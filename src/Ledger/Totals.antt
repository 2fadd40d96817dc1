-- ===== src/Ledger/Totals.antt =====
-- Sound ledgers, their total, and what one write of a balance does to both.
use bachi_coin.Prelude.{
  ℕ, ◌≡◌, ◌∙◌, [], ◌∷◌, true, some, arith, ℤ, pos, ◌+ℤ◌, ◌≤ℤ◌, int_laws, parts_of_eq,
}
use bachi_coin.Dict.{
  Key, Dict, get, put, sum_of, AllValues, AllValues-get, AllValues-put, sum_of-put, get-put,
  sum_of-nonneg, value-le-sum_of,
}
use bachi_coin.Exec.{ok}
use bachi_coin.Wallet.{
  Wallet, WalletStore, Accounts, Rounding, update_balance, update_nonce, update_wallet_state,
}
use bachi_coin.Wallet.Sync.{IsSynced}
use bachi_coin.User.{UserStore}
use bachi_coin.Ledger.{Run, write_balance, set_wallets, set_accounts}
use bachi_coin.Ledger.Process.{get_ledger_balance, write_nonce}

-- A node's wallet index repeats its records, and no balance is negative.
pub record IsSound (a : Accounts) : Type 0 where
  pub sync : IsSynced a.wallets
  pub nonneg : AllValues (λ w. pos 0 ≤ℤ w.balance) a.wallets.index

abbrev pub AllSound : Run → Type 0
AllSound s = AllValues IsSound s.ledger.nodes

abbrev pub node_total : Accounts → ℤ
node_total a = sum_of (λ w. w.balance) a.wallets.index

unfoldable pub total : Run → ℤ
total s = get_ledger_balance s.ledger

-- The wallets of a node after one wallet is written.
abbrev pub written : Key → Wallet → WalletStore → WalletStore
written wid w' s = record { records = put wid w' s.records; index = put wid w' s.index }

update_wallet_state-eq :
    (wid : Key) (change : Wallet → Wallet) (s : WalletStore) (w : Wallet)
    → IsSynced s
    → get wid s.records ≡ some w
    → update_wallet_state wid change s ≡ (true, written wid (change w) s)
unfolding update_wallet_state
update_wallet_state-eq wid change s w h e = ground (arith, e, h.same wid)

AllSound-nonneg :
    (d : Dict Accounts) → AllValues IsSound d → AllValues (λ a. pos 0 ≤ℤ node_total a) d
AllSound-nonneg [] h = tt
AllSound-nonneg ((j, a) ∷ d) h =
    (sum_of-nonneg (λ w. w.balance) a.wallets.index h.0.nonneg, AllSound-nonneg d h.1)

module _ (s : Run) (node : ℕ) (wid : Key) {a : Accounts} {w : Wallet} (sound : AllSound s)
    (at_node : get node s.ledger.nodes ≡ some a)
    (at_wallet : get wid a.wallets.records ≡ some w) where
  node-IsSound : IsSound a
  node-IsSound = AllValues-get IsSound node a s.ledger.nodes sound at_node

  at_index : get wid a.wallets.index ≡ some w
  at_index = node-IsSound.sync.same wid ∙ at_wallet

  -- A wallet of a sound ledger holds no less than zero and no more than the total.
  pub balance_bounds : (pos 0 ≤ℤ w.balance) × (w.balance ≤ℤ total s)
  unfolding total get_ledger_balance
  balance_bounds = (
    AllValues-get (λ v. pos 0 ≤ℤ v.balance) wid w a.wallets.index node-IsSound.nonneg at_index,
    omega (
      int_laws,
      value-le-sum_of (λ v. v.balance) wid w a.wallets.index node-IsSound.nonneg at_index,
      value-le-sum_of node_total node a s.ledger.nodes (AllSound-nonneg s.ledger.nodes sound)
          at_node,
    ),
  )

  written-IsSynced : (w' : Wallet) → IsSynced (written wid w' a.wallets)
  written-IsSynced w' = record {
    same = λ k. ground (
      arith,
      node-IsSound.sync.same k,
      get-put wid k w' a.wallets.records,
      get-put wid k w' a.wallets.index,
    );
  }

  pub written-AllSound :
      (w' : Wallet)
      → pos 0 ≤ℤ w'.balance
      → AllSound (set_wallets node a (written wid w' a.wallets) s)
  written-AllSound w' p =
      AllValues-put IsSound node (record a { wallets = written wid w' a.wallets }) s.ledger.nodes
        sound
        (record {
          sync = written-IsSynced w';
          nonneg =
              AllValues-put (λ v. pos 0 ≤ℤ v.balance) wid w' a.wallets.index node-IsSound.nonneg p;
        })

  -- The total changes by the change of the one balance.
  pub total-written :
      (w' : Wallet)
      → total (set_wallets node a (written wid w' a.wallets) s) +ℤ w.balance ≡ total s +ℤ w'.balance
  unfolding total get_ledger_balance
  total-written w' = omega (
    int_laws,
    parts_of_eq _ _ (sum_of-put (λ v. v.balance) wid w' w a.wallets.index at_index),
    parts_of_eq _ _ (
        sum_of-put node_total node (record a { wallets = written wid w' a.wallets }) a
          s.ledger.nodes at_node),
  )

  pub write_balance-eq :
      (r : Rounding) (new : ℤ)
      → r.store new ≡ new
      → write_balance r node wid a new s
        ≡ (ok new, set_wallets node a (written wid (record w { balance = new }) a.wallets) s)
  unfolding write_balance update_balance
  write_balance-eq r new exact = rw (
    update_wallet_state-eq wid (λ v. record v { balance = r.store new }) a.wallets w
        node-IsSound.sync at_wallet,
    exact,
  )

  pub write_nonce-eq :
      (n : ℕ)
      → write_nonce node wid n a s
        ≡ (ok tt, set_wallets node a (written wid (record w { nonce = n }) a.wallets) s)
  unfolding write_nonce update_nonce
  write_nonce-eq n = rw (
      update_wallet_state-eq wid (λ v. record v { nonce = n }) a.wallets w node-IsSound.sync
        at_wallet)

-- A change of a node's users alone.
module _ (s : Run) (node : ℕ) {a : Accounts} (u : UserStore) (sound : AllSound s)
    (at_node : get node s.ledger.nodes ≡ some a) where
  pub with_users-AllSound : AllSound (set_accounts node (record a { users = u }) s)
  with_users-AllSound =
      let h = AllValues-get IsSound node a s.ledger.nodes sound at_node in
      AllValues-put IsSound node (record a { users = u }) s.ledger.nodes sound
        (record { sync = h.sync; nonneg = h.nonneg })

  pub total-with_users : total (set_accounts node (record a { users = u }) s) ≡ total s
  unfolding total get_ledger_balance
  total-with_users = omega (
    int_laws,
    parts_of_eq _ _ (sum_of-put node_total node (record a { users = u }) a s.ledger.nodes at_node),
  )
