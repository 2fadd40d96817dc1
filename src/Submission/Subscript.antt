-- ===== src/Submission/Subscript.antt =====
-- A submission of many transactions never ends with a missing nonce.
use mathlib.Core.Path.{subst}
use bachi_coin.Prelude.{
  ℕ, ◌+◌, ◌≡◌, ◌≢◌, refl, ap, true, Option, none, some, List, [], ◌∷◌, inl, inr, Bool-cases,
  Option-cases, All, false,
}
use bachi_coin.Dict.{Key, Dict, get, contains}
use bachi_coin.Exec.{Result, ok, err, Exec, ◌>>=◌, key_error}
use bachi_coin.Tx.{Tx}
use bachi_coin.Mempool.{Pool}
use bachi_coin.Signer.{truthy}
use bachi_coin.Submission.{Template, Book, Ref, known_address, create_signed_tx}
use bachi_coin.Wallet.{Wallet, WalletStore, get_wallet_id_by_address, get_wallet_summary}
use bachi_coin.Submission.Batch.{
  signer_key, note_signer, key_of_ref, signs, Client, Setup, Turn, pass, fail, go, enter_nonce,
  get_nonce, wallet_nonce, summary_nonce, first_nonce, note_address, signer_address, signer_ref,
  first_nonces, take_nonce, choose_address, choose, submit_made, submit_one, submit_each,
  submit_numbered, submit_txs_for_user,
}
use bachi_coin.Submission.Kept.{Choice-cases}
use bachi_coin.Submission.Noted.{Extends, Notes, put-Extends, All-Notes, first_nonces-Notes}
use bachi_coin.Submission.Errors.{
  IsKeyed, IsFull, IsComplete, ref_key-given, submit_tx-IsKeyed, create_signed_tx-IsKeyed, err_inj,
}

module _ {ℓ κ μ} {S : Type ℓ} {A : Type κ} {B : Type μ} (m : Exec S A) (f : A → Exec S B) where
  bind-IsKeyed_at :
      (y : Result A × S)
      → IsKeyed y.0
      → ((a : A) (s : S) → y ≡ (ok a, s) → IsKeyed (f a s).0)
      → IsKeyed (((λ _. y) >>= f) y.1).0
  bind-IsKeyed_at (ok a, s) h k = k a s refl
  bind-IsKeyed_at (err x, s) h k = λ e. h (ap err (err_inj x key_error e))

  bind-IsKeyed :
      (s : S)
      → IsKeyed (m s).0
      → ((a : A) (s' : S) → m s ≡ (ok a, s') → IsKeyed (f a s').0)
      → IsKeyed ((m >>= f) s).0
  bind-IsKeyed s h k = bind-IsKeyed_at (m s) h k

summary_nonce-IsKeyed : (w : Option Wallet) → IsKeyed (summary_nonce w)
unfolding summary_nonce
summary_nonce-IsKeyed none e = cc
summary_nonce-IsKeyed (some w) e = cc

wallet_nonce-IsKeyed : (k : Option Key) (w : WalletStore) → IsKeyed (wallet_nonce k w)
unfolding wallet_nonce
wallet_nonce-IsKeyed none w e = cc
wallet_nonce-IsKeyed (some k) w e = summary_nonce-IsKeyed (get_wallet_summary k w) e

enter_nonce-IsKeyed :
    (a : Key) (ns : List ℕ) (d : Dict ℕ) (r : Result ℕ) → IsKeyed r → IsKeyed (enter_nonce a ns d r)
unfolding enter_nonce
enter_nonce-IsKeyed a ns d (ok n) h e = cc
enter_nonce-IsKeyed a ns d (err x) h e = h (ap err (err_inj x key_error e))

take_nonce-taken :
    (a : Key) (n : Option ℕ) (d : Dict ℕ)
    → get a d ≡ n
    → contains a d ≡ true
    → take_nonce a n d ≡ fail
    → ⊥
unfolding take_nonce
take_nonce-taken a none d known h e = let clash : false ≡ true = rw (known, contains) at h in cc
take_nonce-taken a (some n) d known h e = cc

go_inj : (n m : Option ℕ) (d d' : Dict ℕ) → go n d ≡ go m d' → d ≡ d'
go_inj n m d d' e = cc

take_nonce-Extends :
    (a : Key) (n m : Option ℕ) (d d' : Dict ℕ) → take_nonce a n d ≡ go m d' → Extends d d'
unfolding take_nonce
take_nonce-Extends a none m d d' e = cc
take_nonce-Extends a (some n) m d d' e =
    subst (Extends d) (go_inj _ m _ d' e) (put-Extends a (n + 1) d)

key_of_ref-given :
    (book : Book) (ref : Option Ref)
    → IsFull ref
    → (key : Option Key) × (key_of_ref book ref ≡ ok key)
unfolding key_of_ref
key_of_ref-given book none h = (none, refl)
key_of_ref-given book (some ref) h =
    let (key, found) = ref_key-given book ref h in (some key, rw found refl)

module _ (u : Setup) where
  note_address-IsKeyed :
      (address : Option Key) (d : Dict ℕ) (p : Pool) → IsKeyed (note_address u address d p).0
  unfolding note_address first_nonce get_nonce
  note_address-IsKeyed none d p e = cc
  note_address-IsKeyed (some a) d p e = elim (Bool-cases (contains a d)) [
    | inl known ↦ let clash : ok d ≡ err key_error = rw known at e in cc
    | inr new ↦
        enter_nonce-IsKeyed a _ d (get_nonce a u.wallets)
          (wallet_nonce-IsKeyed (truthy (get_wallet_id_by_address a u.wallets)) u.wallets)
          (rw new at e)
  ]

  -- The key of the signer of a complete template is found.
  signer_key-given : (t : Template) → IsComplete t → (key : Option Key) × (signer_key u t ≡ ok key)
  unfolding signer_key signer_ref
  signer_key-given t h = elim (Bool-cases (signs t.tx_type)) [
    | inl signed ↦ rw signed (key_of_ref-given u.book t.from_ref h.from_full)
    | inr unsigned ↦ rw unsigned (key_of_ref-given u.book none tt)
  ]

  note_signer-IsKeyed :
      (t : Template) (d : Dict ℕ) (p : Pool)
      → IsComplete t
      → IsKeyed (note_signer u (signer_key u t) d p).0
  unfolding note_signer
  note_signer-IsKeyed t d p h =
      let (key, found) = signer_key-given t h in
      rw found (note_address-IsKeyed (signer_address u key) d p)

  first_nonces-IsKeyed :
      (ts : List Template) (d : Dict ℕ) (p : Pool)
      → All IsComplete ts
      → IsKeyed (first_nonces u ts d p).0
  unfolding first_nonces
  first_nonces-IsKeyed [] d p h e = cc
  first_nonces-IsKeyed (t ∷ ts) d p h e =
      bind-IsKeyed (note_signer u (signer_key u t) d) (first_nonces u ts) p
        (note_signer-IsKeyed t d p h.0) (λ d' p' _. first_nonces-IsKeyed ts d' p' h.1) e

  submit_made-IsKeyed :
      (turn : Turn) (r : Result Tx) (s : Client) → IsKeyed r → IsKeyed (submit_made u turn r s).0
  unfolding submit_made
  submit_made-IsKeyed turn (err x) s h e = h (ap err (err_inj x key_error e))
  submit_made-IsKeyed turn (ok tx) s h e =
      submit_tx-IsKeyed u.validator turn.now u.canonical_nonce tx (turn.others s).pool e

  submit_one-IsKeyed :
      (turn : Turn) (t : Template) (n : Option ℕ) (s : Client)
      → IsComplete t
      → IsKeyed (submit_one u turn t n s).0
  unfolding submit_one
  submit_one-IsKeyed turn t n s h =
      let (r, txs) = create_signed_tx u.crypto u.formats u.book (some u.keys) t n s.txs in
      submit_made-IsKeyed turn r (record s { txs = txs })
        (create_signed_tx-IsKeyed u.crypto u.formats u.book (some u.keys) t n s.txs h)

  choose_address-taken :
      (address : Option Key) (d : Dict ℕ)
      → ((a : Key) → address ≡ some a → contains a d ≡ true)
      → choose_address address d ≡ fail
      → ⊥
  unfolding choose_address
  choose_address-taken none d h e = cc
  choose_address-taken (some a) d h e = take_nonce-taken a (get a d) d refl (h a refl) e

  choose-taken_at :
      (key : Option Key) (d : Dict ℕ)
      → ((a : Key) → signer_address u key ≡ some a → contains a d ≡ true)
      → choose u (ok key) d ≡ fail
      → ⊥
  unfolding choose signer_address
  choose-taken_at none d h e = cc
  choose-taken_at (some key) d h e = choose_address-taken (known_address u.book key) d h e

  choose-taken :
      (t : Template) (d : Dict ℕ)
      → IsComplete t
      → Notes u d t
      → choose u (signer_key u t) d ≡ fail
      → ⊥
  choose-taken t d h notes e =
      let (key, found) = signer_key-given t h in
      choose-taken_at key d (λ a same. notes a (rw found same)) (rw found at e)

  choose-Extends :
      (key : Result (Option Key)) (m : Option ℕ) (d d' : Dict ℕ)
      → choose u key d ≡ go m d'
      → Extends d d'
  unfolding choose choose_address
  choose-Extends (err x) m d d' e = cc
  choose-Extends (ok none) m d d' e = subst (Extends d) (go_inj _ m d d' e) (λ b h. h)
  choose-Extends (ok (some key)) m d d' e = elim (Option-cases (known_address u.book key)) [
    | inl missing ↦ let clash : pass ≡ go m d' = rw missing at e in cc
    | inr (a, found) ↦ take_nonce-Extends a (get a d) m d d' (rw found at e)
  ]

  submit_each-IsKeyed :
      (count : ℕ) (ts : List Template) (d : Dict ℕ) (s : Client)
      → All IsComplete ts
      → All (Notes u d) ts
      → IsKeyed (submit_each u count ts d s).0
  unfolding submit_each
  submit_each-IsKeyed count [] d s full h e = cc
  submit_each-IsKeyed count (t ∷ ts) d s full h e =
      elim (Choice-cases (choose u (signer_key u t) d)) [
        | inl passed ↦ submit_each-IsKeyed count ts d s full.1 h.1 (rw (passed, submit_each) at e)
        | inr (inl failed) ↦ choose-taken t d full.0 h.0 failed
        | inr (inr (n, (d', taken))) ↦
            bind-IsKeyed (submit_one u (u.turn count) t n) (λ _. submit_each u (count + 1) ts d') s
              (submit_one-IsKeyed (u.turn count) t n s full.0)
              (λ _ s' _.
                submit_each-IsKeyed (count + 1) ts d' s' full.1
                  (All-Notes u d d' ts (choose-Extends (signer_key u t) n d d' taken) h.1))
              (rw (taken, submit_each) at e)
      ]

  submit_numbered-IsKeyed :
      (ts : List Template) (r : Result (Dict ℕ)) (s : Client)
      → All IsComplete ts
      → IsKeyed r
      → ((d : Dict ℕ) → r ≡ ok d → All (Notes u d) ts)
      → IsKeyed (submit_numbered u ts r s).0
  unfolding submit_numbered
  submit_numbered-IsKeyed ts (err x) s full h k e = h (ap err (err_inj x key_error e))
  submit_numbered-IsKeyed ts (ok d) s full h k e = submit_each-IsKeyed 0 ts d s full (k d refl) e

  -- If every template has an amount, and its references a user and a wallet, a submission never
  -- raises the error of a missing key, whatever the services and the other tasks are: the second loop
  -- finds a nonce for every signer that it meets.
  pub submit_txs_for_user-IsKeyed :
      (ts : List Template) (s : Client)
      → All IsComplete ts
      → (submit_txs_for_user u ts s).0 ≢ err key_error
  unfolding submit_txs_for_user
  submit_txs_for_user-IsKeyed ts s full =
      let (r, p) = first_nonces u ts [] s.pool in
      submit_numbered-IsKeyed ts r (record s { pool = p }) full
        (first_nonces-IsKeyed ts [] s.pool full)
        (λ d e. (first_nonces-Notes u ts [] d s.pool p (ap (λ x. (x, p)) e)).0)
