-- ===== src/Submission/Errors.antt =====
-- The making and the submission of one transaction never end with a missing key.
use bachi_coin.Prelude.{
  refl, ℕ, ◌≡◌, ◌≢◌, ap, Bool, true, false, Option, none, some, List, [], ◌∷◌, inl, inr, Bool-cases,
  ◌==◌, leb, length, ltb_ℤ,
}
use bachi_coin.Dict.{get, Key, Dict}
use bachi_coin.Exec.{
  Error, Result, ok, err, key_error, validation_failed, fee_below_minimum, pool_full, no_tx_hash,
  duplicate_nonce,
}
use bachi_coin.Tx.{Tx, TxType}
use bachi_coin.TxCheck.{TxFormats, TxError, validate_transaction}
use bachi_coin.TxIndex.{TxStore, save_signed_transaction, save_checked, save_valid}
use bachi_coin.Admission.{Rejection, PoolState, AccountState, max_pool_size, min_priority_fee}
use bachi_coin.Mempool.{
  Pool, submit_tx, submit_checked, is_nonce_taken, get_current_pool_state, get_account_state,
  sender_of,
}
use bachi_coin.Signer.{Crypto, create_canonical_tx_hash}
use bachi_coin.Submission.{
  Book, Ref, ref_key, or_key_error, resolve_unstake, pool_ref, Template, known_address, and_then,
  or_unmapped, resolve_from, resolve_to, check_nonce, prepare_typed, prepare, sign_with,
  sign_if_required, save_final, create_signed_tx, is_user_signed, get_pvt_key_for_address,
}

-- A result is not that of a missing key.
abbrev pub IsKeyed {ℓ} : {A : Type ℓ} → Result A → Type ℓ
IsKeyed r = r ≢ err key_error

pub err_inj {ℓ} : {A : Type ℓ} (x y : Error) → ◌≡◌ {A = Result A} (err x) (err y) → x ≡ y
err_inj x y e = cc

and_then-IsKeyed {ℓ κ} :
    {A : Type ℓ} {B : Type κ} (r : Result A) (f : A → Result B)
    → IsKeyed r
    → ((a : A) → IsKeyed (f a))
    → IsKeyed (and_then r f)
and_then-IsKeyed (ok a) f h k e = k a e
and_then-IsKeyed (err x) f h k e = h (ap err (err_inj x key_error e))

or_unmapped-IsKeyed : (o : Option Key) → IsKeyed (or_unmapped o)
or_unmapped-IsKeyed none e = cc
or_unmapped-IsKeyed (some a) e = cc

abbrev pub IsGiven {ℓ} : {A : Type ℓ} → Option A → Type 0
IsGiven none = ⊥
IsGiven (some _) = Unit

-- A reference, if there is one, has both keys.
abbrev pub IsFull : Option Ref → Type 0
IsFull none = Unit
IsFull (some ref) = IsGiven ref.user × IsGiven ref.wallet

-- A template has all keys that its submission may read without a default.
pub record IsComplete (t : Template) : Type 0 where
  pub from_full : IsFull t.from_ref
  pub to_full : IsFull t.to_ref
  pub amount_given : IsGiven t.amount

or_key_error-given {ℓ} : {A : Type ℓ} (o : Option A) → IsGiven o → (a : A) × (or_key_error o ≡ ok a)
or_key_error-given none h = absurd h
or_key_error-given (some a) h = (a, refl)

pub ref_key-given :
    (book : Book) (ref : Ref) → IsFull (some ref) → (key : Key) × (ref_key book ref ≡ ok key)
unfolding ref_key
ref_key-given book ref h =
    let (user, at_user) = or_key_error-given ref.user h.0 in
    let (wallet, at_wallet) = or_key_error-given ref.wallet h.1 in
    (book.ref_text user wallet, rw (at_user, at_wallet) refl)

ref_key-IsKeyed : (book : Book) (ref : Ref) → IsFull (some ref) → IsKeyed (ref_key book ref)
ref_key-IsKeyed book ref h e =
    let (key, found) = ref_key-given book ref h in
    let clash : ok key ≡ err key_error = rw found at e in cc

resolve_from-IsKeyed :
    (book : Book) (ref : Option Ref) → IsFull ref → IsKeyed (resolve_from book ref)
unfolding resolve_from
resolve_from-IsKeyed book none h e = cc
resolve_from-IsKeyed book (some ref) h e =
    and_then-IsKeyed (ref_key book ref) (λ key. or_unmapped (known_address book key))
      (ref_key-IsKeyed book ref h) (λ key. or_unmapped-IsKeyed (known_address book key)) e

resolve_unstake-IsKeyed :
    (book : Book) (ref : Option Ref) (from : Option Key)
    → IsFull ref
    → IsKeyed (resolve_unstake book ref from)
unfolding resolve_unstake
resolve_unstake-IsKeyed book none from h e = cc
resolve_unstake-IsKeyed book (some ref) from h e =
    and_then-IsKeyed (ref_key book ref) (λ key. ok (get key book.addresses))
      (ref_key-IsKeyed book ref h) (λ key e. cc) e

check_nonce-IsKeyed : (b : Bool) (n : Option ℕ) → IsKeyed (check_nonce b n)
unfolding check_nonce
check_nonce-IsKeyed true none e = cc
check_nonce-IsKeyed true (some n) e = cc
check_nonce-IsKeyed false none e = cc
check_nonce-IsKeyed false (some n) e = cc

submit_checked-IsKeyed :
    (validator : Tx → PoolState → AccountState → List Rejection) (now : ℕ) (tx : Tx) (q : PoolState)
    (a : AccountState) (s : Pool)
    → IsKeyed (submit_checked validator now tx q (a, s)).0
unfolding submit_checked
submit_checked-IsKeyed validator now tx q a s e =
    elim (Bool-cases (leb 1 (length (validator tx q a)))) [
      | inl errors ↦
          let clash : ◌≡◌ {A = Result Key} (err validation_failed) (err key_error) =
            rw errors at e in
          cc
      | inr valid ↦ elim (Bool-cases (ltb_ℤ tx.max_priority_fee_per_gas min_priority_fee)) [
        | inl low ↦
            let clash : ◌≡◌ {A = Result Key} (err fee_below_minimum) (err key_error) =
              rw (valid, low) at e in
            cc
        | inr enough ↦ elim (Bool-cases (leb max_pool_size (length s.tx_queue))) [
          | inl full ↦
              let clash : ◌≡◌ {A = Result Key} (err pool_full) (err key_error) =
                rw (valid, enough, full) at e in
              cc
          | inr room ↦
              let clash : ok tx.tx_hash ≡ err key_error = rw (valid, enough, room) at e in cc
        ]
      ]
    ]

pub submit_tx-IsKeyed :
    (validator : Tx → PoolState → AccountState → List Rejection) (now : ℕ) (canonical : Key → ℕ)
    (tx : Tx) (s : Pool)
    → IsKeyed (submit_tx validator now canonical tx s).0
unfolding submit_tx
submit_tx-IsKeyed validator now canonical tx s e = elim (Bool-cases (tx.tx_hash == 0)) [
  | inl missing ↦
      let clash : ◌≡◌ {A = Result Key} (err no_tx_hash) (err key_error) = rw missing at e in cc
  | inr hashed ↦ elim (Bool-cases (is_nonce_taken tx s.tx_queue)) [
    | inl taken ↦
        let clash : ◌≡◌ {A = Result Key} (err duplicate_nonce) (err key_error) =
          rw (hashed, taken) at e in
        cc
    | inr new ↦
        let (a, s') = get_account_state canonical (sender_of tx) s in
        submit_checked-IsKeyed validator now tx (get_current_pool_state s.tx_queue) a s'
          (rw (hashed, new) at e)
  ]
]

resolve_to-IsKeyed :
    (book : Book) (type : TxType) (ref : Option Ref) (from : Option Key)
    → IsFull ref
    → IsKeyed (resolve_to book type ref from)
unfolding resolve_to
resolve_to-IsKeyed book TxType.stake ref from h e =
    or_unmapped-IsKeyed (known_address book pool_ref) e
resolve_to-IsKeyed book TxType.unstake ref from h e = resolve_unstake-IsKeyed book ref from h e
resolve_to-IsKeyed book TxType.transfer ref from h e = resolve_from-IsKeyed book ref h e
resolve_to-IsKeyed book TxType.mint ref from h e = resolve_from-IsKeyed book ref h e
resolve_to-IsKeyed book TxType.burn ref from h e = resolve_from-IsKeyed book ref h e
resolve_to-IsKeyed book TxType.pool ref from h e = resolve_from-IsKeyed book ref h e
resolve_to-IsKeyed book TxType.reward ref from h e = resolve_from-IsKeyed book ref h e
resolve_to-IsKeyed book TxType.slash ref from h e = resolve_from-IsKeyed book ref h e
resolve_to-IsKeyed book TxType.contract_call ref from h e = resolve_from-IsKeyed book ref h e
resolve_to-IsKeyed book TxType.contract_deploy ref from h e = resolve_from-IsKeyed book ref h e
resolve_to-IsKeyed book TxType.governance ref from h e = resolve_from-IsKeyed book ref h e
resolve_to-IsKeyed book TxType.unknown ref from h e = resolve_from-IsKeyed book ref h e

prepare_typed-IsKeyed :
    (book : Book) (t : Template) (type : TxType) (n : Option ℕ)
    → IsComplete t
    → IsKeyed (prepare_typed book t type n)
unfolding prepare_typed
prepare_typed-IsKeyed book t type n h =
    let (amount, given) = or_key_error-given t.amount h.amount_given in
    and_then-IsKeyed (resolve_from book t.from_ref) _
      (resolve_from-IsKeyed book t.from_ref h.from_full)
      (λ from.
        and_then-IsKeyed (resolve_to book type t.to_ref from) _
          (resolve_to-IsKeyed book type t.to_ref from h.to_full)
          (λ to.
            and_then-IsKeyed (check_nonce (is_user_signed type) n) _
              (check_nonce-IsKeyed (is_user_signed type) n)
              (λ m.
                and_then-IsKeyed (or_key_error t.amount) _
                  (λ e. let clash : ok amount ≡ err key_error = rw given at e in cc) (λ a e. cc))))

prepare-IsKeyed :
    (book : Book) (t : Template) (type : Option TxType) (n : Option ℕ)
    → IsComplete t
    → IsKeyed (prepare book (record t { tx_type = type }) n)
unfolding prepare
prepare-IsKeyed book t none n h e = cc
prepare-IsKeyed book t (some type) n h e =
    prepare_typed-IsKeyed book (record t { tx_type = some type }) type n
      (record { from_full = h.from_full; to_full = h.to_full; amount_given = h.amount_given }) e

sign_with-IsKeyed : (c : Crypto) (tx : Tx) (k : Option Key) → IsKeyed (sign_with c tx k)
unfolding sign_with
sign_with-IsKeyed c tx none e = cc
sign_with-IsKeyed c tx (some k) e = cc

sign_if_required-IsKeyed :
    (c : Crypto) (keys : Option (Dict Key)) (tx : Tx) → IsKeyed (sign_if_required c keys tx)
unfolding sign_if_required
sign_if_required-IsKeyed c keys tx e = elim (Bool-cases (is_user_signed tx.tx_type)) [
  | inl user ↦
      sign_with-IsKeyed c (record tx { tx_hash = create_canonical_tx_hash c tx })
        (get_pvt_key_for_address keys tx.from_address) (rw user at e)
  | inr system ↦
      let clash : ok (record tx { tx_hash = create_canonical_tx_hash c tx; signature = none })
          ≡ err key_error =
        rw system at e in
      cc
]

save_checked-IsKeyed :
    (errors : List TxError) (tx : Tx) (s : TxStore) → IsKeyed (save_checked errors tx s).0
unfolding save_checked save_valid
save_checked-IsKeyed [] tx s e = elim (Bool-cases (tx.tx_hash == 0)) [
  | inl missing ↦
      let clash : ◌≡◌ {A = Result Bool} (err no_tx_hash) (err key_error) = rw missing at e in cc
  | inr hashed ↦ let clash : ok true ≡ err key_error = rw hashed at e in cc
]
save_checked-IsKeyed (x ∷ xs) tx s e = cc

save_final-IsKeyed :
    (f : TxFormats) (r : Result Tx) (s : TxStore) → IsKeyed r → IsKeyed (save_final f r s).0
unfolding save_final save_signed_transaction
save_final-IsKeyed f (err x) s h = h
save_final-IsKeyed f (ok tx) s h =
    and_then-IsKeyed (save_checked (validate_transaction f tx) tx s).0 (λ _. ok tx)
      (save_checked-IsKeyed (validate_transaction f tx) tx s) (λ a e. cc)

pub create_signed_tx-IsKeyed :
    (c : Crypto) (f : TxFormats) (book : Book) (keys : Option (Dict Key)) (t : Template)
    (n : Option ℕ) (s : TxStore)
    → IsComplete t
    → IsKeyed (create_signed_tx c f book keys t n s).0
unfolding create_signed_tx
create_signed_tx-IsKeyed c f book keys t n s h =
    save_final-IsKeyed f (and_then (prepare book t n) (sign_if_required c keys)) s (
      and_then-IsKeyed (prepare book t n) (sign_if_required c keys)
        (prepare-IsKeyed book t t.tx_type n h) (sign_if_required-IsKeyed c keys))
