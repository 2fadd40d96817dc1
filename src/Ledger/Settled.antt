-- ===== src/Ledger/Settled.antt =====
-- What `_apply_block_balance_changes` of postprocess_state.py does after the transactions: the nonces
-- and the users' totals leave the wallets' total alone.
use bachi_coin.Prelude.{
  ℕ, ◌+◌, ◌≡◌, refl, ◌⊎◌, none, some, arith, pos, ◌+ℤ◌, int_laws, Option-cases, inl, inr,
  parts_of_eq, List, [], ◌∷◌,
}
use bachi_coin.Dict.{Key, get}
use bachi_coin.Exec.{Error, ok, err, Exec, for_each, assertion_failed, node_not_found}
use bachi_coin.Wallet.{
  Accounts, get_wallet_id_by_address, get_wallet_summary, update_nonce, update_wallet_state,
  reconcile_user_balance,
}
use bachi_coin.Ledger.{Run, Env, get_context_for_address, accounts_of, set_accounts}
use bachi_coin.Ledger.Process.{
  write_nonce, increment_nonce, get_nonce, advance_sender, reconcile_user,
}
use bachi_coin.Ledger.Totals.{
  AllSound, write_nonce-eq, written-AllSound, total-written, balance_bounds, with_users-AllSound,
  total-with_users,
}
use bachi_coin.Ledger.Moves.{Moves, Moves-bind, Moves-eq, Moves-after_keep}
use bachi_coin.Ledger.Handlers.{ledger-get_context_for_address}

module _ (env : Env) where
  write_nonce-none :
      (node : ℕ) (wid : Key) (n : ℕ) (a : Accounts) (s : Run)
      → get wid a.wallets.records ≡ none
      → write_nonce node wid n a s ≡ (err assertion_failed, s)
  unfolding write_nonce update_nonce update_wallet_state
  write_nonce-none node wid n a s e = ground (arith, e)

  write_nonce-Moves :
      (node : ℕ) (wid : Key) (n : ℕ) (a : Accounts) (s : Run)
      → AllSound s
      → get node s.ledger.nodes ≡ some a
      → Moves s (pos 0) (write_nonce node wid n a s)
  write_nonce-Moves node wid n a s sound e = elim (Option-cases (get wid a.wallets.records)) [
    | inl e' ↦ rw (write_nonce-none node wid n a s e') tt
    | inr (w, e') ↦
        let bounds = balance_bounds s node wid sound e e' in
        rw (write_nonce-eq s node wid sound e e' n) (
          written-AllSound s node wid sound e e' (record w { nonce = n }) bounds.0,
          omega (
            int_laws,
            parts_of_eq _ _ (total-written s node wid sound e e' (record w { nonce = n })),
          ),
          refl,
        )
  ]

  -- A nonce increment raises and leaves the ledger, or writes one nonce.
  increment_nonce-cases :
      (node : ℕ) (addr : Key) (c : ℕ) (s : Run)
      → ((e : Error) × (increment_nonce node addr c s ≡ (err e, s)))
        ⊎ ((a : Accounts) × ((wid : Key) × ((n : ℕ) × ((get node s.ledger.nodes ≡ some a)
                  × (increment_nonce node addr c s ≡ write_nonce node wid n a s)))))
  unfolding increment_nonce get_nonce accounts_of
  increment_nonce-cases node addr c s = elim (Option-cases (get node s.ledger.nodes)) [
    | inl e ↦ inl (node_not_found, ground (arith, e))
    | inr (a, e) ↦ elim (Option-cases (get_wallet_id_by_address addr a.wallets)) [
      | inl e' ↦ inl (assertion_failed, ground (arith, e, e'))
      | inr (wid, e') ↦ elim (Option-cases (get_wallet_summary wid a.wallets)) [
        | inl e'' ↦ inl (assertion_failed, ground (arith, e, e', e''))
        | inr (w, e'') ↦ inr (a, (wid, (w.nonce + c, (e, ground (arith, e, e', e'')))))
      ]
    ]
  ]

  pub advance_sender-Moves :
      (sender : Key × ℕ) (s : Run) → AllSound s → Moves s (pos 0) (advance_sender env sender s)
  unfolding advance_sender
  advance_sender-Moves (addr, c) s sound =
      Moves-after_keep (get_context_for_address env (some addr)) (λ at. increment_nonce at.0 addr c)
        (pos 0) s sound (ledger-get_context_for_address env (some addr) s)
        λ at s' sound' _. elim (increment_nonce-cases at.0 addr c s') [
          | inl (e, p) ↦ rw p tt
          | inr (a, (wid, (n, (p, q)))) ↦ rw q (write_nonce-Moves at.0 wid n a s' sound' p)
        ]

  -- The accounts after the reconciliation of a user differ in the users alone.
  reconcile-wallets :
      (uid : Key) (a : Accounts)
      → (reconcile_user_balance env.rounding uid a).1
        ≡ record a { users = (reconcile_user_balance env.rounding uid a).1.users }
  unfolding reconcile_user_balance
  reconcile-wallets uid a = elim (Option-cases (get uid a.users.index)) [
    | inl e ↦ ground (arith, e)
    | inr (u, e) ↦ ground (arith, e)
  ]

  reconcile_user-none :
      (uid : Key) (node : ℕ) (s : Run)
      → get node s.ledger.nodes ≡ none
      → reconcile_user env (uid, node) s ≡ (err node_not_found, s)
  unfolding reconcile_user accounts_of
  reconcile_user-none uid node s e = ground (arith, e)

  reconcile_user-some :
      (uid : Key) (node : ℕ) (s : Run) (a : Accounts)
      → get node s.ledger.nodes ≡ some a
      → reconcile_user env (uid, node) s
        ≡ (ok tt, set_accounts node (reconcile_user_balance env.rounding uid a).1 s)
  unfolding reconcile_user accounts_of
  reconcile_user-some uid node s a e = ground (arith, e)

  pub reconcile_user-Moves :
      (user : Key × ℕ) (s : Run) → AllSound s → Moves s (pos 0) (reconcile_user env user s)
  reconcile_user-Moves (uid, node) s sound = elim (Option-cases (get node s.ledger.nodes)) [
    | inl e ↦ rw (reconcile_user-none uid node s e) tt
    | inr (a, e) ↦
        let u = (reconcile_user_balance env.rounding uid a).1.users in
        rw (reconcile_user-some uid node s a e, reconcile-wallets uid a)
          (
            with_users-AllSound s node u sound e,
            omega (int_laws, parts_of_eq _ _ (total-with_users s node u sound e)),
            refl,
          )
  ]

  -- A loop whose body adds nothing adds nothing.
  pub for_each-Moves :
      {A : Type 0} (xs : List A) (body : A → Exec Run (Unit {0})) (s : Run)
      → AllSound s
      → ((x : A) (s' : Run) → AllSound s' → Moves s' (pos 0) (body x s'))
      → Moves s (pos 0) (for_each xs body s)
  for_each-Moves [] body s sound h = (sound, omega int_laws, refl)
  for_each-Moves (x ∷ xs) body s sound h =
      Moves-eq (pos 0 +ℤ pos 0) (pos 0) s (for_each (x ∷ xs) body s) (omega int_laws) (
        Moves-bind (body x) (λ _. for_each xs body) (pos 0) (pos 0) s (h x s sound)
          λ _ s' _ sound' _. for_each-Moves xs body s' sound' h)
