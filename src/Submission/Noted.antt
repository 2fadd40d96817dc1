-- ===== src/Submission/Noted.antt =====
-- The subscript of the nonces in the second loop of a submission.
use mathlib.Core.Path.{subst}
use bachi_coin.Prelude.{
  ℕ, ◌≡◌, ap, true, Option, none, some, List, [], ◌∷◌, inl, inr, Bool-cases, All, arith,
}
use bachi_coin.Dict.{Key, Dict, put, contains, get-put}
use bachi_coin.Exec.{Result, ok, err, bind_inv, ok_inj, some_inj}
use bachi_coin.Mempool.{Pool}
use bachi_coin.Submission.{Template}
use bachi_coin.Submission.Batch.{
  signer_key, note_signer, Setup, enter_nonce, get_nonce, first_nonce, note_address, signer_address,
  first_nonces,
}

-- Every key of the first dict is one of the second.
abbrev pub Extends : Dict ℕ → Dict ℕ → Type 0
Extends d d' = (b : Key) → contains b d ≡ true → contains b d' ≡ true

pub put-Extends : (a : Key) (n : ℕ) (d : Dict ℕ) → Extends d (put a n d)
put-Extends a n d b h = ground (arith, get-put a b n d, h)

contains-put : (a : Key) (n : ℕ) (d : Dict ℕ) → contains a (put a n d) ≡ true
contains-put a n d = ground (arith, get-put a a n d)

enter_nonce-Extends :
    (a : Key) (pending : List ℕ) (d d' : Dict ℕ) (r : Result ℕ)
    → enter_nonce a pending d r ≡ ok d'
    → (contains a d' ≡ true) × Extends d d'
unfolding enter_nonce
enter_nonce-Extends a pending d d' (err x) e = cc
enter_nonce-Extends a pending d d' (ok n) e =
    subst (λ x. (contains a x ≡ true) × Extends d x) (ok_inj _ d' e)
      (contains-put a _ d, put-Extends a _ d)

module _ (u : Setup) where
  note_address-Extends :
      (address : Option Key) (d d' : Dict ℕ) (p : Pool)
      → (note_address u address d p).0 ≡ ok d'
      → ((a : Key) → address ≡ some a → contains a d' ≡ true) × Extends d d'
  unfolding note_address first_nonce
  note_address-Extends none d d' p e = (λ a same. cc, subst (Extends d) (ok_inj d d' e) (λ b h. h))
  note_address-Extends (some a) d d' p e = elim (Bool-cases (contains a d)) [
    | inl known ↦
        let same = ok_inj d d' (rw known at e) in
        (
          λ b eq.
              subst (λ x. contains b x ≡ true) same
                (subst (λ k. contains k d ≡ true) (some_inj a b eq) known),
          subst (Extends d) same (λ b h. h),
        )
    | inr new ↦
        let (own, extends) = enter_nonce-Extends a _ d d' (get_nonce a u.wallets) (rw new at e) in
        (λ b eq. subst (λ k. contains k d' ≡ true) (some_inj a b eq) own, extends)
  ]

  -- The address of a signer, if the template has its key and the book its address.
  abbrev pub address_of : Result (Option Key) → Option Key
  address_of (err e) = none
  address_of (ok key) = signer_address u key

  note_signer-Extends :
      (key : Result (Option Key)) (d d' : Dict ℕ) (p : Pool)
      → (note_signer u key d p).0 ≡ ok d'
      → ((a : Key) → address_of key ≡ some a → contains a d' ≡ true) × Extends d d'
  unfolding note_signer
  note_signer-Extends (err x) d d' p e = (λ a h. cc, λ b h. cc)
  note_signer-Extends (ok key) d d' p e = note_address-Extends (signer_address u key) d d' p e

  -- The nonces have the signer of a template, if its address is known.
  abbrev pub Notes : Dict ℕ → Template → Type 0
  Notes d t = (a : Key) → address_of (signer_key u t) ≡ some a → contains a d ≡ true

  pub All-Notes :
      (d d' : Dict ℕ) (ts : List Template) → Extends d d' → All (Notes d) ts → All (Notes d') ts
  All-Notes d d' [] x h = tt
  All-Notes d d' (t ∷ ts) x h = (λ a e. x a (h.0 a e), All-Notes d d' ts x h.1)

  pub first_nonces-Notes :
      (ts : List Template) (d d' : Dict ℕ) (p p' : Pool)
      → first_nonces u ts d p ≡ (ok d', p')
      → All (Notes d') ts × Extends d d'
  unfolding first_nonces
  first_nonces-Notes [] d d' p p' e =
      (tt, subst (Extends d) (ok_inj d d' (ap (λ y. y.0) e)) (λ b h. h))
  first_nonces-Notes (t ∷ ts) d d' p p' e =
      let key = signer_key u t in
      let (middle, (p1, (noted, rest))) =
        bind_inv (note_signer u key d) (first_nonces u ts) d' p p' e in
      let (own, first) = note_signer-Extends key d middle p (ap (λ y. y.0) noted) in
      let (others, later) = first_nonces-Notes ts middle d' p1 p' rest in
      ((λ a same. later a (own a same), others), λ b h. later b (first b h))
