-- ===== src/Submission/Signed.antt =====
-- The signatures that made transactions carry.
use bachi_coin.Prelude.{
  ◌≡◌, ◌≢◌, refl, ap, sym, ◌∙◌, ℕ, true, false, Option, none, some, arith, Bool-cases, inl, inr,
}
use mathlib.Core.Path.{subst}
use bachi_coin.Dict.{Key, Dict, get}
use bachi_coin.Exec.{Result, ok, err, ok_inj}
use bachi_coin.Tx.{Tx, TxType}
use bachi_coin.Signer.{
  Crypto, get_canonical_tx_data, create_canonical_tx_hash, truthy, is_recovered, verify_with,
  verify_transaction_signature,
}
use bachi_coin.Submission.{
  Book, Ref, ref_key, or_key_error, is_user_signed, get_pvt_key_for_address, sign_with,
  sign_if_required, resolve_from, known_address, or_unmapped, Template, and_then, resolve_to,
  check_nonce, prepare_typed, prepare, create_tx_with_index, save_final, create_signed_tx,
}
use bachi_coin.TxCheck.{TxFormats}
use bachi_coin.TxIndex.{TxStore, save_signed_transaction}

-- What the library of the curve documents: a signature is a text, and the public key of the private
-- key is recovered from it.
pub record IsCurve (c : Crypto) (public_of : Key → Key) : Type 0 where
  pub signature_given : (hash private_key : Key) → c.sign_message_recoverable hash private_key ≢ 0
  pub public_given : (private_key : Key) → public_of private_key ≢ 0
  pub recovered :
      (hash private_key : Key)
      → c.recover_public_key hash (c.sign_message_recoverable hash private_key)
        ≡ some (public_of private_key)

-- Each address of the map is that of its private key.
pub record AreTheirKeys (c : Crypto) (public_of : Key → Key) (keys : Dict Key) : Type 0 where
  pub theirs :
      (address private_key : Key)
      → get address keys ≡ some private_key
      → c.lower (c.public_key_to_address (public_of private_key)) ≡ c.lower address

truthy-given : (k : Key) → k ≢ 0 → truthy (some k) ≡ some k
unfolding truthy
truthy-given k h = ground arith

truthy-none : truthy none ≡ none
unfolding truthy
truthy-none = refl

truthy-some : (o : Option Key) (k : Key) → truthy o ≡ some k → o ≡ some k
unfolding truthy
truthy-some none k e = cc
truthy-some (some j) k e = ground arith

module _ (c : Crypto) (public_of : Key → Key) (curve : IsCurve c public_of) where
  is_recovered-own :
      (address private_key : Key)
      → c.lower (c.public_key_to_address (public_of private_key)) ≡ c.lower address
      → is_recovered c address (truthy (some (public_of private_key))) ≡ true
  unfolding is_recovered
  is_recovered-own address private_key e =
      rw (truthy-given (public_of private_key) (curve.public_given private_key), e) (ground arith)

  -- A transaction with its hash and with the signature of that hash.
  abbrev with_signature : Tx → Key → Tx
  with_signature tx private_key =
      let hash = create_canonical_tx_hash c tx in
      record tx { tx_hash = hash; signature = some (c.sign_message_recoverable hash private_key) }

  with_signature-verifies :
      (tx : Tx) (address private_key : Key)
      → truthy tx.from_address ≡ some address
      → c.lower (c.public_key_to_address (public_of private_key)) ≡ c.lower address
      → verify_transaction_signature c (with_signature tx private_key) ≡ true
  unfolding verify_transaction_signature verify_with create_canonical_tx_hash get_canonical_tx_data
  with_signature-verifies tx address private_key e same =
      let hash = create_canonical_tx_hash c tx in
      let signature = c.sign_message_recoverable hash private_key in
      rw
        (
          truthy-given signature (curve.signature_given hash private_key),
          e,
          curve.recovered hash private_key,
        )
        (is_recovered-own address private_key same)

  unsigned-fails : (tx : Tx) → tx.signature ≡ none → verify_transaction_signature c tx ≡ false
  unfolding verify_transaction_signature verify_with truthy
  unsigned-fails tx e = rw e refl

  without_signature :
      (unsigned tx : Tx)
      → (Result.ok
          (record unsigned { tx_hash = create_canonical_tx_hash c unsigned; signature = none }))
        ≡ ok tx
      → tx.signature ≡ none
  without_signature unsigned tx e = sym (ap (λ t. t.signature) (ok_inj _ tx e))

  own-verifies :
      (keys : Dict Key) (from : Option Key) (unsigned tx : Tx) (found : Option Key)
      → AreTheirKeys c public_of keys
      → unsigned.from_address ≡ from
      → truthy from ≡ from
      → get_pvt_key_for_address (some keys) from ≡ found
      → sign_with c (record unsigned { tx_hash = create_canonical_tx_hash c unsigned }) found
        ≡ ok tx
      → verify_transaction_signature c tx ≡ true
  unfolding sign_with get_pvt_key_for_address
  own-verifies keys from unsigned tx none h same given e signed = cc
  own-verifies keys none unsigned tx (some private_key) h same given e signed = cc
  own-verifies keys (some address) unsigned tx (some private_key) h same given e signed =
      subst (λ t. verify_transaction_signature c t ≡ true)
        (ok_inj (with_signature unsigned private_key) tx signed)
        (with_signature-verifies unsigned address private_key (ap truthy same ∙ given)
          (h.theirs address private_key (truthy-some (get address keys) private_key e)))

  -- The signing of a transaction whose sender is not the empty text.
  sign_if_required-verifies :
      (keys : Dict Key) (unsigned tx : Tx)
      → AreTheirKeys c public_of keys
      → truthy unsigned.from_address ≡ unsigned.from_address
      → sign_if_required c (some keys) unsigned ≡ ok tx
      → verify_transaction_signature c tx ≡ is_user_signed unsigned.tx_type
  unfolding sign_if_required
  sign_if_required-verifies keys unsigned tx h from e =
      elim (Bool-cases (is_user_signed unsigned.tx_type)) [
        | inl user ↦ rw user (
            own-verifies keys unsigned.from_address unsigned tx
              (get_pvt_key_for_address (some keys) unsigned.from_address) h refl from refl
              (rw user at e))
        | inr system ↦
            rw system (unsigned-fails tx (without_signature unsigned tx (rw system at e)))
      ]

truthy-truthy : (o : Option Key) → truthy (truthy o) ≡ truthy o
unfolding truthy
truthy-truthy none = refl
truthy-truthy (some k) = ground arith

or_unmapped-ok : (o from : Option Key) → or_unmapped o ≡ ok from → o ≡ from
or_unmapped-ok none from e = cc
or_unmapped-ok (some k) from e = ok_inj (some k) from e

-- The two halves of a chain of results that succeeds.
and_then-inv {ℓ κ} :
    {A : Type ℓ} {B : Type κ} (r : Result A) (f : A → Result B) (b : B)
    → and_then r f ≡ ok b
    → (a : A) × ((r ≡ ok a) × (f a ≡ ok b))
and_then-inv (ok a) f b e = (a, (refl, e))
and_then-inv (err x) f b e = cc

resolve_from-given :
    (book : Book) (ref : Option Ref) (from : Option Key)
    → resolve_from book ref ≡ ok from
    → truthy from ≡ from
unfolding resolve_from known_address
resolve_from-given book none from e = subst (λ o. truthy o ≡ o) (ok_inj none from e) truthy-none
resolve_from-given book (some ref) from e =
    let (key, (_, found)) = and_then-inv (ref_key book ref) _ from e in
    let address = truthy (get key book.addresses) in
    subst (λ o. truthy o ≡ o) (or_unmapped-ok address from found)
      (truthy-truthy (get key book.addresses))

prepare_typed-given :
    (book : Book) (t : Template) (type : TxType) (nonce : Option ℕ) (tx : Tx)
    → prepare_typed book t type nonce ≡ ok tx
    → truthy tx.from_address ≡ tx.from_address
unfolding prepare_typed create_tx_with_index
prepare_typed-given book t type nonce tx e =
    let (from, (resolved, e1)) = and_then-inv (resolve_from book t.from_ref) _ tx e in
    let (to, (_, e2)) = and_then-inv (resolve_to book type t.to_ref from) _ tx e1 in
    let (n, (_, e3)) = and_then-inv (check_nonce (is_user_signed type) nonce) _ tx e2 in
    let (amount, (_, e4)) = and_then-inv (or_key_error t.amount) _ tx e3 in
    subst (λ x. truthy x.from_address ≡ x.from_address) (ok_inj _ tx e4)
      (resolve_from-given book t.from_ref from resolved)

prepare-given :
    (book : Book) (t : Template) (type : Option TxType) (nonce : Option ℕ) (tx : Tx)
    → prepare book (record t { tx_type = type }) nonce ≡ ok tx
    → truthy tx.from_address ≡ tx.from_address
unfolding prepare
prepare-given book t none nth tx e = cc
prepare-given book t (some type) nth tx e =
    prepare_typed-given book (record t { tx_type = some type }) type nth tx e

save_final-ok :
    (f : TxFormats) (r : Result Tx) (s : TxStore) (tx : Tx)
    → (save_final f r s).0 ≡ ok tx
    → r ≡ ok tx
unfolding save_final
save_final-ok f (err x) s tx e = cc
save_final-ok f (ok made) s tx e =
    let (_, (_, same)) = and_then-inv (save_signed_transaction f made s).0 (λ _. ok made) tx e in
    same

sign_with-type :
    (c : Crypto) (tx signed : Tx) (found : Option Key)
    → sign_with c tx found ≡ ok signed
    → signed.tx_type ≡ tx.tx_type
unfolding sign_with
sign_with-type c tx signed none e = cc
sign_with-type c tx signed (some k) e = sym (ap (λ t. t.tx_type) (ok_inj _ signed e))

sign_if_required-type :
    (c : Crypto) (keys : Option (Dict Key)) (tx signed : Tx)
    → sign_if_required c keys tx ≡ ok signed
    → signed.tx_type ≡ tx.tx_type
unfolding sign_if_required
sign_if_required-type c keys tx signed e = elim (Bool-cases (is_user_signed tx.tx_type)) [
  | inl user ↦
      sign_with-type c (record tx { tx_hash = create_canonical_tx_hash c tx }) signed
        (get_pvt_key_for_address keys tx.from_address) (rw user at e)
  | inr system ↦ sym (ap (λ t. t.tx_type) (ok_inj _ signed (rw system at e)))
]

-- If the signatures are those of the curve and each key of the map is that of its address, a made
-- transaction has a valid signature of its sender exactly if its type is one that users sign.
pub create_signed_tx-verifies :
    (c : Crypto) (public_of : Key → Key) (f : TxFormats) (book : Book) (keys : Dict Key)
    (t : Template) (nonce : Option ℕ) (s : TxStore) (tx : Tx)
    → IsCurve c public_of
    → AreTheirKeys c public_of keys
    → (create_signed_tx c f book (some keys) t nonce s).0 ≡ ok tx
    → verify_transaction_signature c tx ≡ is_user_signed tx.tx_type
unfolding create_signed_tx
create_signed_tx-verifies c public_of f book keys t nonce s tx curve h e =
    let made =
      save_final-ok f (and_then (prepare book t nonce) (sign_if_required c (some keys))) s tx e in
    let (unsigned, (prepared, signed)) = and_then-inv (prepare book t nonce) _ tx made in
    sign_if_required-verifies c public_of curve keys unsigned tx h
      (prepare-given book t t.tx_type nonce unsigned prepared) signed
    ∙ ap is_user_signed (sym (sign_if_required-type c (some keys) unsigned tx signed))
