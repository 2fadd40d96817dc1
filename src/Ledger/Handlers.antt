-- ===== src/Ledger/Handlers.antt =====
-- What each branch of the block loop adds to the total, against the change of supply that it means.
use bachi_coin.Prelude.{
  ℕ, ◌≡◌, refl, Option, none, some, arith, ℤ, pos, ◌+ℤ◌, ◌-ℤ◌, ◌≤ℤ◌, ltb_ℤ, int_laws, Bool-cases,
  inl, inr, parts_of_eq,
}
use bachi_coin.Dict.{Key}
use bachi_coin.Exec.{◌>>=◌, ◌>>◌}
use bachi_coin.Wallet.{IsExact}
use bachi_coin.Ledger.{
  Run, Env, apply_debit, apply_credit, note_change, get_context_for_address, count_sender,
  credit_and_note, debit_and_note, debit_sender, credit_receiver, credit_system, debit_system,
  credit_pool_with_gas,
}
use bachi_coin.Ledger.Totals.{AllSound, total}
use bachi_coin.Ledger.Moves.{
  Moves, Moves-then_keep, Moves-after_keep, apply_credit-Moves, apply_debit-Moves,
}

ledger-note_change :
    (node : ℕ) (wid : Key) (c n : ℤ) (s : Run) → (note_change node wid c n s).1.ledger ≡ s.ledger
unfolding note_change
ledger-note_change node wid c n s = ground arith

pub ledger-get_context_for_address :
    (env : Env) (addr : Option Key) (s : Run)
    → (get_context_for_address env addr s).1.ledger ≡ s.ledger
unfolding get_context_for_address
ledger-get_context_for_address env addr s = ground arith

ledger-count_sender : (addr : Option Key) (s : Run) → (count_sender addr s).1.ledger ≡ s.ledger
unfolding count_sender
ledger-count_sender none s = refl
ledger-count_sender (some addr) s = refl

-- An amount that goes to a system wallet if there is one.
abbrev pub if_some : Option Key → ℤ → ℤ
if_some none d = pos 0
if_some (some _) d = d

pub if_some-zero : (system : Option Key) (d : ℤ) → d ≡ pos 0 → if_some system d ≡ pos 0
if_some-zero none d e = refl
if_some-zero (some _) d e = e

ledger-count_then_note :
    (addr : Option Key) (node : ℕ) (wid : Key) (c n : ℤ) (s : Run)
    → ((count_sender addr >> note_change node wid c n) s).1.ledger ≡ s.ledger
unfolding count_sender
ledger-count_then_note none node wid c n s = ledger-note_change node wid c n s
ledger-count_then_note (some addr) node wid c n s = ledger-note_change node wid c n _

module _ (env : Env) (limit : ℕ) (exact : IsExact env.rounding limit) where
  credit_and_note-Moves :
      (node : ℕ) (wid : Key) (d : ℤ) (s : Run)
      → AllSound s
      → pos 0 ≤ℤ d
      → total s +ℤ d ≤ℤ pos limit
      → Moves s d (credit_and_note env.rounding node wid d s)
  unfolding credit_and_note
  credit_and_note-Moves node wid d s sound p q =
      Moves-then_keep (apply_credit env.rounding node wid d) (note_change node wid d) d s
        (apply_credit-Moves env.rounding limit exact node wid d s sound p q)
        (ledger-note_change node wid d)

  debit_and_note-Moves :
      (node : ℕ) (wid : Key) (d : ℤ) (s : Run)
      → AllSound s
      → pos 0 ≤ℤ d
      → total s ≤ℤ pos limit
      → Moves s (pos 0 -ℤ d) (debit_and_note env.rounding node wid d s)
  unfolding debit_and_note
  debit_and_note-Moves node wid d s sound p q =
      Moves-then_keep (apply_debit env.rounding node wid d) (note_change node wid (pos 0 -ℤ d))
        (pos 0 -ℤ d) s (apply_debit-Moves env.rounding limit exact node wid d s sound p q)
        (ledger-note_change node wid (pos 0 -ℤ d))

  pub credit_receiver-Moves :
      (addr : Option Key) (d : ℤ) (s : Run)
      → AllSound s
      → pos 0 ≤ℤ d
      → total s +ℤ d ≤ℤ pos limit
      → Moves s d (credit_receiver env addr d s)
  unfolding credit_receiver
  credit_receiver-Moves addr d s sound p q =
      Moves-after_keep (get_context_for_address env addr)
        (λ at. credit_and_note env.rounding at.0 at.1 d) d s sound
        (ledger-get_context_for_address env addr s)
        λ at s' sound' same.
          credit_and_note-Moves at.0 at.1 d s' sound' p (omega (int_laws, parts_of_eq _ _ same))

  pub debit_sender-Moves :
      (addr : Option Key) (d : ℤ) (s : Run)
      → AllSound s
      → pos 0 ≤ℤ d
      → total s ≤ℤ pos limit
      → Moves s (pos 0 -ℤ d) (debit_sender env addr d s)
  unfolding debit_sender
  debit_sender-Moves addr d s sound p q =
      Moves-after_keep (get_context_for_address env addr)
        (λ at. do
          new ← apply_debit env.rounding at.0 at.1 d
          count_sender addr
          note_change at.0 at.1 (pos 0 -ℤ d) new)
        (pos 0 -ℤ d) s sound (ledger-get_context_for_address env addr s)
        λ at s' sound' same.
          Moves-then_keep (apply_debit env.rounding at.0 at.1 d)
            (λ new. count_sender addr >> note_change at.0 at.1 (pos 0 -ℤ d) new) (pos 0 -ℤ d) s'
            (apply_debit-Moves env.rounding limit exact at.0 at.1 d s' sound' p
              (omega (int_laws, parts_of_eq _ _ same)))
            (ledger-count_then_note addr at.0 at.1 (pos 0 -ℤ d))

  pub credit_system-Moves :
      (system : Option Key) (d : ℤ) (s : Run)
      → AllSound s
      → pos 0 ≤ℤ d
      → total s +ℤ d ≤ℤ pos limit
      → Moves s (if_some system d) (credit_system env system d s)
  unfolding credit_system
  credit_system-Moves none d s sound p q = (sound, omega int_laws, refl)
  credit_system-Moves (some wid) d s sound p q = credit_and_note-Moves 0 wid d s sound p q

  pub debit_system-Moves :
      (system : Option Key) (d : ℤ) (s : Run)
      → AllSound s
      → pos 0 ≤ℤ d
      → total s ≤ℤ pos limit
      → Moves s (pos 0 -ℤ if_some system d) (debit_system env system d s)
  unfolding debit_system
  debit_system-Moves none d s sound p q = (sound, omega int_laws, refl)
  debit_system-Moves (some wid) d s sound p q = debit_and_note-Moves 0 wid d s sound p q

  pub credit_pool_with_gas-Moves :
      (fee : ℤ) (s : Run)
      → AllSound s
      → pos 0 ≤ℤ fee
      → total s +ℤ fee ≤ℤ pos limit
      → Moves s (if_some env.pool_wallet_id fee) (credit_pool_with_gas env fee s)
  unfolding credit_pool_with_gas
  credit_pool_with_gas-Moves fee s sound p q = elim (Bool-cases (ltb_ℤ (pos 0) fee)) [
    | inl some_fee ↦ rw some_fee (credit_system-Moves env.pool_wallet_id fee s sound p q)
    | inr no_fee ↦
        rw no_fee
          (sound, rw (if_some-zero env.pool_wallet_id fee (ground arith)) (omega int_laws), refl)
  ]
