-- ===== src/Exec.antt =====
-- Calls that mutate objects and may raise. A raise keeps what was written before it, so the state
-- stands beside the error as well as beside the result.
use bachi_coin.Prelude.{Bool, Option, none, some, List, [], ◌∷◌, if◌then◌else◌, ◌≡◌, ap, refl}

-- One constructor for each `raise` and each failing `assert` or subscript of the modelled code.
pub data Error : Type 0 where
  insufficient_balance wallet_not_found update_failed : Error
  address_unmapped node_not_found wallet_unknown tx_failed : Error
  key_error assertion_failed type_error : Error
  no_tx_hash duplicate_nonce validation_failed fee_below_minimum pool_full : Error
  zero_division block_failed attribute_error : Error
  no_tx_type nonce_missing nonce_forbidden no_private_key : Error

pub data Result {ℓ} (A : Type ℓ) : Type ℓ where
  ok : A → Result A
  err : Error → Result A

pub some_inj {ℓ} : {A : Type ℓ} (a b : A) → Option.some a ≡ some b → a ≡ b
some_inj a b e = cc

pub ok_inj {ℓ} : {A : Type ℓ} (a b : A) → Result.ok a ≡ ok b → a ≡ b
ok_inj a b e = cc

abbrev pub Exec {ℓ κ} : Type ℓ → Type κ → Type (ℓ ⊔ κ)
Exec S A = S → Result A × S

module _ {ℓ κ} {S : Type ℓ} {A : Type κ} where
  abbrev pub pure : A → Exec S A
  pure a s = (ok a, s)

  abbrev pub raise : Error → Exec S A
  raise e s = (err e, s)

  -- Reads the state.
  abbrev pub gets : (S → A) → Exec S A
  gets f s = (ok (f s), s)

  -- The value of an optional lookup, or an error.
  abbrev pub or_raise : Option A → Error → Exec S A
  or_raise none e s = (err e, s)
  or_raise (some a) e s = (ok a, s)

module _ {ℓ κ μ} {S : Type ℓ} {A : Type κ} {B : Type μ} where
  infixl 5 ◌>>=◌
  abbrev pub ◌>>=◌ : Exec S A → (A → Exec S B) → Exec S B
  ◌>>=◌ m f s = let (r, s') = m s in elim r [ ok a ↦ f a s' | err e ↦ (err e, s') ]

module _ {ℓ μ} {S : Type ℓ} {B : Type μ} where
  infixl 5 ◌>>◌
  abbrev pub ◌>>◌ : Exec S (Unit {0}) → Exec S B → Exec S B
  m >> k = m >>= λ _. k

module _ {ℓ} {S : Type ℓ} where
  abbrev pub modify : (S → S) → Exec S (Unit {0})
  modify f s = (ok tt, f s)

  -- `assert b`, or a test that raises when it fails.
  abbrev pub ensure : Bool → Error → Exec S (Unit {0})
  ensure b e s = (if b then ok tt else err e, s)

  -- `for x in xs: body(x)`, which stops at the first error.
  abbrev pub for_each {κ} : {A : Type κ} → List A → (A → Exec S (Unit {0})) → Exec S (Unit {0})
  for_each [] body s = (ok tt, s)
  for_each (x ∷ xs) body s =
      let (r, s') = body x s in elim r [ ok _ ↦ for_each xs body s' | err e ↦ (err e, s') ]

module _ {ℓ κ μ} {S : Type ℓ} {A : Type κ} {B : Type μ} (m : Exec S A) (f : A → Exec S B) where
  pub bind_ok : (a : A) (s s' : S) → m s ≡ (ok a, s') → (m >>= f) s ≡ f a s'
  bind_ok a s s' e = ap (λ y. ((λ _. y) >>= f) s) e

  pub bind_err : (x : Error) (s s' : S) → m s ≡ (err x, s') → (m >>= f) s ≡ (err x, s')
  bind_err x s s' e = ap (λ y. ((λ _. y) >>= f) s) e

  bind_inv_at :
      (y : Result A × S) (b : B) (s' : S)
      → ((λ _. y) >>= f) y.1 ≡ (ok b, s')
      → (a : A) × ((s1 : S) × ((y ≡ (ok a, s1)) × (f a s1 ≡ (ok b, s'))))
  bind_inv_at (ok a, s1) b s' e = (a, (s1, (refl, e)))
  bind_inv_at (err x, s1) b s' e = cc

  -- The two halves of a sequence that returns.
  pub bind_inv :
      (b : B) (s s' : S)
      → (m >>= f) s ≡ (ok b, s')
      → (a : A) × ((s1 : S) × ((m s ≡ (ok a, s1)) × (f a s1 ≡ (ok b, s'))))
  bind_inv b s s' e = bind_inv_at (m s) b s' e

  bind_holds_at {π} :
      (P : S → Type π) (y : Result A × S)
      → P y.1
      → ((a : A) (s' : S) → P s' → P (f a s').1)
      → P (((λ _. y) >>= f) y.1).1
  bind_holds_at P (ok a, s1) h step = step a s1 h
  bind_holds_at P (err x, s1) h step = h

  -- What holds after the first half, and which the second half keeps, holds after a sequence.
  pub bind_holds {π} :
      (P : S → Type π) (s : S)
      → P (m s).1
      → ((a : A) (s' : S) → P s' → P (f a s').1)
      → P ((m >>= f) s).1
  bind_holds P s h step = bind_holds_at P (m s) h step
