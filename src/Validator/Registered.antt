-- ===== src/Validator/Registered.antt =====
-- What the validator registry keeps.
use bachi_coin.Prelude.{
  ℕ, ◌+◌, ◌<◌, ◌≡◌, refl, ◌⊎◌, Option, none, some, arith, ◌==◌, if◌then◌else◌, Bool-cases, inl, inr,
}
use bachi_coin.Dict.{Key, get, put, get-put}
use bachi_coin.Exec.{Result, ok}
use bachi_coin.User.{User, UserStore, get_user_summary}
use bachi_coin.Wallet.{Wallet, WalletStore, get_wallet}
use bachi_coin.Validator.{
  Validator, Registry, WalletKeys, add_validator, add_validator_to_index,
  create_genesis_validator_data, find_validator_by_user, load_found, register_validator,
  register_new, register_owner, register_with, credentials_for,
}

pub record IsRegistry (s : Registry) : Type 0 where
  -- the index repeats the records
  pub same : (i : ℕ) → get i s.index.validators ≡ get i s.records
  -- a record has its own number, below the next one
  pub numbered :
      (i : ℕ) (v : Validator)
      → get i s.records ≡ some v
      → (v.validator_index ≡ i) × (i < s.index.total_validators)
  -- a user's number leads to a validator of this user
  pub by_user :
      (uid : Key) (i : ℕ)
      → get uid s.index.by_user ≡ some i
      → (v : Validator) × ((get i s.records ≡ some v) × (v.user_id ≡ uid))

-- A registration leaves the registry alone, or adds a validator for the user under the next number.
abbrev Registers : Key → Registry → Result ℕ × Registry → Type 0
Registers uid s y =
    (y.1 ≡ s)
    ⊎ ((pubkey : Key) × ((credentials : Key) × (y
            ≡ (ok s.index.total_validators, add_validator uid pubkey credentials s))))

register_with-cases :
    (uid : Key) (pubkey credentials : Option Key) (s : Registry)
    → Registers uid s (register_with uid pubkey credentials s)
unfolding register_with
register_with-cases uid (some pubkey) (some credentials) s = inr (pubkey, (credentials, refl))
register_with-cases uid (some pubkey) none s = inl refl
register_with-cases uid none (some credentials) s = inl refl
register_with-cases uid none none s = inl refl

register_owner-cases :
    (k : WalletKeys) (uid given : Key) (u : Option User) (w : Option Wallet) (s : Registry)
    → Registers uid s (register_owner k uid given u w s)
unfolding register_owner
register_owner-cases k uid given (some u) (some w) s = elim (Bool-cases (w.user_id == uid)) [
  | inl own ↦
      rw own (register_with-cases uid (k.extract_validator_pubkey w) (credentials_for k given w) s)
  | inr other ↦ rw other (inl refl)
]
register_owner-cases k uid given (some u) none s = inl refl
register_owner-cases k uid given none (some w) s = inl refl
register_owner-cases k uid given none none s = inl refl

register_new-cases :
    (k : WalletKeys) (uid wid given : Key) (users : UserStore) (wallets : WalletStore)
    (v : Option Validator) (s : Registry)
    → Registers uid s (register_new k uid wid given users wallets v s)
unfolding register_new
register_new-cases k uid wid given users wallets (some v) s = inl refl
register_new-cases k uid wid given users wallets none s =
    register_owner-cases k uid given (get_user_summary uid users) (get_wallet wid wallets) s

module _ (uid pubkey credentials : Key) (s : Registry) (h : IsRegistry s) where
  abbrev added : Validator
  added = create_genesis_validator_data s.index.total_validators pubkey credentials uid

  get-added :
      (i : ℕ)
      → get i (add_validator uid pubkey credentials s).records
        ≡ (if s.index.total_validators == i then some added else get i s.records)
  unfolding add_validator
  get-added i = get-put s.index.total_validators i added s.records

  added-numbered :
      (i : ℕ) (v : Validator)
      → get i (add_validator uid pubkey credentials s).records ≡ some v
      → (v.validator_index ≡ i) × (i < s.index.total_validators + 1)
  unfolding create_genesis_validator_data
  added-numbered i v e = elim (Bool-cases (s.index.total_validators == i)) [
    | inl here ↦
        let same : added ≡ v = ground (arith, get-added i, e, here) in
        (rw (← same) (ground (arith, here)), ground (arith, here))
    | inr other ↦
        let old = h.numbered i v (ground (arith, get-added i, e, other)) in
        (old.0, omega (arith, old.1))
  ]

  added-by_user :
      (other : Key) (i : ℕ)
      → get other (put uid s.index.total_validators s.index.by_user) ≡ some i
      → (v : Validator) × ((get i (add_validator uid pubkey credentials s).records ≡ some v)
          × (v.user_id ≡ other))
  unfolding create_genesis_validator_data
  added-by_user other i e = elim (Bool-cases (uid == other)) [
    | inl here ↦
        let at : s.index.total_validators ≡ i =
          ground (arith, get-put uid other s.index.total_validators s.index.by_user, e, here) in
        (added, (ground (arith, get-added i, at), ground (arith, here)))
    | inr elsewhere ↦
        let (v, (at, own)) = h.by_user other i (
          ground
            (arith, get-put uid other s.index.total_validators s.index.by_user, e, elsewhere)) in
        (v, (ground (arith, get-added i, at, h.numbered i v at), own))
  ]

  add_validator-IsRegistry : IsRegistry (add_validator uid pubkey credentials s)
  unfolding add_validator add_validator_to_index create_genesis_validator_data
  add_validator-IsRegistry = record {
    same = λ i. ground (
      arith,
      h.same i,
      get-put s.index.total_validators i added s.records,
      get-put s.index.total_validators i added s.index.validators,
    );
    numbered = added-numbered;
    by_user = added-by_user;
  }

-- A registration keeps the registry consistent on every branch: the index repeats the records, each
-- record has its own number below the next one, and a user's number leads to the user's validator.
pub register_validator-IsRegistry :
    (k : WalletKeys) (uid wid given : Key) (users : UserStore) (wallets : WalletStore)
    (s : Registry)
    → IsRegistry s
    → IsRegistry (register_validator k uid wid given users wallets s).1
unfolding register_validator
register_validator-IsRegistry k uid wid given users wallets s h =
    elim (register_new-cases k uid wid given users wallets (find_validator_by_user uid s) s) [
      | inl same ↦ rw same h
      | inr (pubkey, (credentials, e)) ↦ rw e (add_validator-IsRegistry uid pubkey credentials s h)
    ]

-- A registration of a user that the index knows answers with the user's number and changes
-- nothing, whatever wallet and credentials it gives.
pub register_validator-again :
    (k : WalletKeys) (uid wid given : Key) (users : UserStore) (wallets : WalletStore)
    (s : Registry) (i : ℕ)
    → IsRegistry s
    → get uid s.index.by_user ≡ some i
    → register_validator k uid wid given users wallets s ≡ (ok i, s)
unfolding register_validator find_validator_by_user load_found register_new
register_validator-again k uid wid given users wallets s i h e =
    let (v, (at, _)) = h.by_user uid i e in ground (arith, e, at, h.numbered i v at)
