-- ===== src/Ledger/Moves.antt =====
-- How much a call adds to the total of a sound ledger when it returns: one lemma for each helper of
-- the block loop, and a rule for sequences. A call that raises says nothing here.
use mathlib.Core.Path.{subst}
use bachi_coin.Prelude.{
  ap, ◌∙◌, ℕ, ◌≡◌, refl, none, some, arith, ℤ, pos, negsuc, ◌+ℤ◌, ◌-ℤ◌, ◌≤ℤ◌, ltb_ℤ, int_laws,
  if◌then◌else◌, Bool-cases, Option-cases, inl, inr, parts_of_eq,
}
use bachi_coin.Dict.{Key, get}
use bachi_coin.Exec.{
  insufficient_balance, wallet_not_found, node_not_found, Result, ok, err, Exec, ◌>>=◌,
}
use bachi_coin.Wallet.{Wallet, Accounts, Rounding, IsExact}
use bachi_coin.Ledger.{Ledger, Run, write_balance, apply_debit, apply_credit}
use bachi_coin.Ledger.Totals.{
  AllSound, total, balance_bounds, written-AllSound, total-written, write_balance-eq,
}

abbrev pub Moves : {A : Type 0} → Run → ℤ → Result A × Run → Type 0
Moves s d (ok _, s') = AllSound s' × (total s' ≡ total s +ℤ d) × (s'.ledger.txs ≡ s.ledger.txs)
Moves s d (err _, s') = Unit

Moves-add :
    {B : Type 0} (d e : ℤ) (s s' : Run) (y : Result B × Run)
    → total s' ≡ total s +ℤ d
    → s'.ledger.txs ≡ s.ledger.txs
    → Moves s' e y
    → Moves s (d +ℤ e) y
Moves-add d e s s' (ok b, t) h g p =
    (p.0, omega (int_laws, parts_of_eq _ _ p.1, parts_of_eq _ _ h), p.2 ∙ g)
Moves-add d e s s' (err x, t) h g p = tt

Moves-continue :
    {A B : Type 0} (f : A → Exec Run B) (d e : ℤ) (s : Run) (r : Result A) (s' : Run)
    → Moves s d (r, s')
    → ((a : A) → r ≡ ok a → AllSound s' → total s' ≡ total s +ℤ d → Moves s' e (f a s'))
    → Moves s (d +ℤ e) (((λ _. (r, s')) >>= f) s)
Moves-continue f d e s (err x) s' h k = tt
Moves-continue f d e s (ok a) s' h k = Moves-add d e s s' (f a s') h.1 h.2 (k a refl h.0 h.1)

pub Moves-eq :
    {B : Type 0} (d e : ℤ) (s : Run) (y : Result B × Run) → d ≡ e → Moves s d y → Moves s e y
Moves-eq d e s y p h = subst (λ x. Moves s x y) p h

-- A call that leaves the ledger alone adds nothing.
pub Moves-keep :
    {B : Type 0} (s : Run) (y : Result B × Run)
    → AllSound s
    → y.1.ledger ≡ s.ledger
    → Moves s (pos 0) y
unfolding total
Moves-keep s (ok b, t) sound e = (rw e sound, rw e (omega int_laws), ap (λ (l : Ledger). l.txs) e)
Moves-keep s (err x, t) sound e = tt

-- Two calls in a row add what both add.
pub Moves-bind :
    {A B : Type 0} (m : Exec Run A) (f : A → Exec Run B) (d e : ℤ) (s : Run)
    → Moves s d (m s)
    → ((a : A) (s' : Run)
        → m s ≡ (ok a, s')
        → AllSound s'
        → total s' ≡ total s +ℤ d
        → Moves s' e (f a s'))
    → Moves s (d +ℤ e) ((m >>= f) s)
Moves-bind m f d e s h k =
    let (r, s') = m s in Moves-continue f d e s r s' h (λ a p. k a s' (λ i. (p i, s')))

module _ (r : Rounding) (limit : ℕ) (exact : IsExact r limit) where
  pub store_exact : (x : ℤ) → pos 0 ≤ℤ x → x ≤ℤ pos limit → r.store x ≡ x
  store_exact (pos n) h k = exact.store_exact n (omega arith)
  store_exact (negsuc n) h k = absurd (omega arith)

  module _ (node : ℕ) (wid : Key) (d : ℤ) (s : Run) {a : Accounts} {w : Wallet}
      (at_node : get node s.ledger.nodes ≡ some a)
      (at_wallet : get wid a.wallets.records ≡ some w) where
    pub apply_debit-eq : apply_debit r node wid d s ≡ (
        if ltb_ℤ (w.balance -ℤ d) (pos 0)
        then (err insufficient_balance, s)
        else write_balance r node wid a (w.balance -ℤ d) s)
    unfolding apply_debit
    apply_debit-eq = ground (arith, at_node, at_wallet)

    apply_credit-eq : apply_credit r node wid d s ≡ write_balance r node wid a (w.balance +ℤ d) s
    unfolding apply_credit
    apply_credit-eq = ground (arith, at_node, at_wallet)

    -- A write of an exact balance adds the difference to the old one.
    write_balance-Moves :
        (b change : ℤ)
        → AllSound s
        → pos 0 ≤ℤ b
        → b ≤ℤ pos limit
        → b ≡ w.balance +ℤ change
        → Moves s change (write_balance r node wid a b s)
    write_balance-Moves b change sound p q e =
        let w' = record w { balance = b } in
        rw (write_balance-eq s node wid sound at_node at_wallet r b (store_exact b p q)) (
          written-AllSound s node wid sound at_node at_wallet w' p,
          omega (
            int_laws,
            parts_of_eq _ _ (total-written s node wid sound at_node at_wallet w'),
            parts_of_eq _ _ e,
          ),
          refl,
        )

    apply_credit-found :
        AllSound s
        → pos 0 ≤ℤ d
        → total s +ℤ d ≤ℤ pos limit
        → Moves s d (apply_credit r node wid d s)
    apply_credit-found sound p q =
        let bounds = balance_bounds s node wid sound at_node at_wallet in
        rw apply_credit-eq
          (write_balance-Moves (w.balance +ℤ d) d sound (omega int_laws) (omega int_laws) refl)

    apply_debit-found :
        AllSound s
        → pos 0 ≤ℤ d
        → total s ≤ℤ pos limit
        → Moves s (pos 0 -ℤ d) (apply_debit r node wid d s)
    apply_debit-found sound p q =
        let bounds = balance_bounds s node wid sound at_node at_wallet in
        elim (Bool-cases (ltb_ℤ (w.balance -ℤ d) (pos 0))) [
          | inl short ↦ rw (apply_debit-eq, short) tt
          | inr covered ↦
              rw (apply_debit-eq, covered)
                (write_balance-Moves (w.balance -ℤ d) (pos 0 -ℤ d) sound (ground arith)
                  (omega int_laws) (omega int_laws))
        ]

  apply_credit-no_node :
      (node : ℕ) (wid : Key) (d : ℤ) (s : Run)
      → get node s.ledger.nodes ≡ none
      → apply_credit r node wid d s ≡ (err node_not_found, s)
  unfolding apply_credit
  apply_credit-no_node node wid d s e = ground (arith, e)

  apply_credit-no_wallet :
      (node : ℕ) (wid : Key) (d : ℤ) (s : Run) {a : Accounts}
      → get node s.ledger.nodes ≡ some a
      → get wid a.wallets.records ≡ none
      → apply_credit r node wid d s ≡ (err wallet_not_found, s)
  unfolding apply_credit
  apply_credit-no_wallet node wid d s e e' = ground (arith, e, e')

  apply_debit-no_node :
      (node : ℕ) (wid : Key) (d : ℤ) (s : Run)
      → get node s.ledger.nodes ≡ none
      → apply_debit r node wid d s ≡ (err node_not_found, s)
  unfolding apply_debit
  apply_debit-no_node node wid d s e = ground (arith, e)

  apply_debit-no_wallet :
      (node : ℕ) (wid : Key) (d : ℤ) (s : Run) {a : Accounts}
      → get node s.ledger.nodes ≡ some a
      → get wid a.wallets.records ≡ none
      → apply_debit r node wid d s ≡ (err wallet_not_found, s)
  unfolding apply_debit
  apply_debit-no_wallet node wid d s e e' = ground (arith, e, e')

  -- A credit adds its amount, as long as the new total stays in the range of exact floats.
  pub apply_credit-Moves :
      (node : ℕ) (wid : Key) (d : ℤ) (s : Run)
      → AllSound s
      → pos 0 ≤ℤ d
      → total s +ℤ d ≤ℤ pos limit
      → Moves s d (apply_credit r node wid d s)
  apply_credit-Moves node wid d s sound p q = elim (Option-cases (get node s.ledger.nodes)) [
    | inl e ↦ rw (apply_credit-no_node node wid d s e) tt
    | inr (a, e) ↦ elim (Option-cases (get wid a.wallets.records)) [
      | inl e' ↦ rw (apply_credit-no_wallet node wid d s e e') tt
      | inr (w, e') ↦ apply_credit-found node wid d s e e' sound p q
    ]
  ]

  -- A debit subtracts its amount.
  pub apply_debit-Moves :
      (node : ℕ) (wid : Key) (d : ℤ) (s : Run)
      → AllSound s
      → pos 0 ≤ℤ d
      → total s ≤ℤ pos limit
      → Moves s (pos 0 -ℤ d) (apply_debit r node wid d s)
  apply_debit-Moves node wid d s sound p q = elim (Option-cases (get node s.ledger.nodes)) [
    | inl e ↦ rw (apply_debit-no_node node wid d s e) tt
    | inr (a, e) ↦ elim (Option-cases (get wid a.wallets.records)) [
      | inl e' ↦ rw (apply_debit-no_wallet node wid d s e e') tt
      | inr (w, e') ↦ apply_debit-found node wid d s e e' sound p q
    ]
  ]

-- A call that leaves the ledger alone may stand behind, or in front.
pub Moves-then_keep :
    {A B : Type 0} (m : Exec Run A) (f : A → Exec Run B) (d : ℤ) (s : Run)
    → Moves s d (m s)
    → ((a : A) (s' : Run) → (f a s').1.ledger ≡ s'.ledger)
    → Moves s d ((m >>= f) s)
Moves-then_keep m f d s h k =
    Moves-eq (d +ℤ pos 0) d s ((m >>= f) s) (omega int_laws)
      (Moves-bind m f d (pos 0) s h λ a s' _ sound _. Moves-keep s' (f a s') sound (k a s'))

pub Moves-after_keep :
    {A B : Type 0} (m : Exec Run A) (f : A → Exec Run B) (d : ℤ) (s : Run)
    → AllSound s
    → (m s).1.ledger ≡ s.ledger
    → ((a : A) (s' : Run) → AllSound s' → total s' ≡ total s +ℤ pos 0 → Moves s' d (f a s'))
    → Moves s d ((m >>= f) s)
Moves-after_keep m f d s sound e k =
    Moves-eq (pos 0 +ℤ d) d s ((m >>= f) s) (omega int_laws)
      (Moves-bind m f (pos 0) d s (Moves-keep s (m s) sound e) λ a s' _. k a s')
