-- ===== src/Submission/Numbered.antt =====
-- The nonces that a submission starts with, and the number that it returns.
use bachi_coin.Prelude.{
  ℕ, ◌+◌, ◌<◌, ◌≡◌, refl, ap, sym, ◌∙◌, Bool, true, false, Option, none, some, List, [], ◌∷◌, inl,
  inr, Bool-cases, All, if◌then◌else◌, Option-cases, arith,
}
use mathlib.Core.Path.{subst}
use bachi_coin.Dict.{Key, Dict, get, put, contains, AllValues, AllValues-put}
use bachi_coin.Exec.{Result, ok, err, bind_inv, ok_inj, key_error}
use bachi_coin.Mempool.{Pool, get_pending_transactions, get_pending_nonces, reload_state}
use bachi_coin.Nonce.{calculate_next_nonce}
use bachi_coin.Nonce.Fresh.{calculate_next_nonce-is_new}
use bachi_coin.Submission.{Template, known_address}
use bachi_coin.Submission.Batch.{
  signer_key, note_signer, Client, Setup, enter_nonce, pass, go, get_nonce, first_nonce,
  note_address, signer_address, first_nonces, take_nonce, choose_address, choose, submit_one,
  submit_each, submit_numbered, submit_txs_for_user,
}
use bachi_coin.Submission.Kept.{note_signer-same, Choice-cases}

-- No address with a nonce, or without one, is passed over.
take_nonce-pass :
    (address : Key) (n : Option ℕ) (nonces : Dict ℕ)
    → take_nonce address n nonces ≡ pass
    → some address ≡ none
unfolding take_nonce
take_nonce-pass address none nonces e = cc
take_nonce-pass address (some n) nonces e = cc

choose_address-pass :
    (address : Option Key) (nonces : Dict ℕ) → choose_address address nonces ≡ pass → address ≡ none
unfolding choose_address
choose_address-pass none nonces e = refl
choose_address-pass (some address) nonces e = take_nonce-pass address (get address nonces) nonces e

module _ (u : Setup) where
  -- The nonces of all pending transactions of a pool, whoever sent them.
  abbrev pub all_pending : Pool → List ℕ
  all_pending p = get_pending_nonces (get_pending_transactions u.score none p).0

  abbrev pub AreAbove : Pool → Dict ℕ → Type 0
  AreAbove p nonces = AllValues (λ n. All (λ m. m < n) (all_pending p)) nonces

  enter_nonce-AreAbove :
      (address : Key) (start nonces : Dict ℕ) (p : Pool) (canonical : Result ℕ)
      → AreAbove p start
      → enter_nonce address (all_pending p) start canonical ≡ ok nonces
      → AreAbove p nonces
  unfolding enter_nonce
  enter_nonce-AreAbove address start nonces p (err x) h e = cc
  enter_nonce-AreAbove address start nonces p (ok n) h e =
      let next = calculate_next_nonce n (all_pending p) in
      subst (AreAbove p) (ok_inj (put address next start) nonces e) (
        AllValues-put (λ n. All (λ m. m < n) (all_pending p)) address next start h
          (calculate_next_nonce-is_new n (all_pending p)).1)

  note_address-AreAbove :
      (address : Option Key) (start nonces : Dict ℕ) (p : Pool)
      → AreAbove p start
      → (note_address u address start p).0 ≡ ok nonces
      → AreAbove p nonces
  unfolding note_address first_nonce
  note_address-AreAbove none start nonces p h e = subst (AreAbove p) (ok_inj start nonces e) h
  note_address-AreAbove (some address) start nonces p h e =
      elim (Bool-cases (contains address start)) [
        | inl known ↦ subst (AreAbove p) (ok_inj start nonces (rw known at e)) h
        | inr new ↦
            enter_nonce-AreAbove address start nonces p (get_nonce address u.wallets) h
              (rw new at e)
      ]

  note_signer-AreAbove :
      (key : Result (Option Key)) (start nonces : Dict ℕ) (p : Pool)
      → AreAbove p start
      → (note_signer u key start p).0 ≡ ok nonces
      → AreAbove p nonces
  unfolding note_signer
  note_signer-AreAbove (err x) start nonces p h e = cc
  note_signer-AreAbove (ok key) start nonces p h e =
      note_address-AreAbove (signer_address u key) start nonces p h e

  -- On a pool that agrees with its storage, the first nonce of every sender is above the nonces of
  -- all pending transactions, those of other senders included.
  pub first_nonces-AreAbove :
      (ts : List Template) (start nonces : Dict ℕ) (p p' : Pool)
      → reload_state p ≡ p
      → AreAbove p start
      → first_nonces u ts start p ≡ (ok nonces, p')
      → AreAbove p nonces
  unfolding first_nonces
  first_nonces-AreAbove [] start nonces p p' fresh h e =
      subst (AreAbove p) (ok_inj start nonces (ap (λ y. y.0) e)) h
  first_nonces-AreAbove (t ∷ ts) start nonces p p' fresh h e =
      let key = signer_key u t in
      let (middle, (p1, (noted, rest))) =
        bind_inv (note_signer u key start) (first_nonces u ts) nonces p p' e in
      let same : p1 ≡ p = sym (ap (λ y. y.1) noted) ∙ note_signer-same u key start p fresh in
      first_nonces-AreAbove ts middle nonces p p' fresh
        (note_signer-AreAbove key start middle p h (ap (λ y. y.0) noted))
        (subst (λ q. first_nonces u ts middle q ≡ (ok nonces, p')) same rest)

  -- The signer of a template has no known address.
  abbrev pub is_passed : Result (Option Key) → Bool
  is_passed (err e) = false
  is_passed (ok none) = false
  is_passed (ok (some key)) = elim (known_address u.book key) [ none ↦ true | some _ ↦ false ]

  -- The number of templates that a submission does not pass over.
  abbrev pub number_left : List Template → ℕ
  number_left [] = 0
  number_left (t ∷ ts) =
      let rest = number_left ts in if is_passed (signer_key u t) then rest else rest + 1

  choose-pass :
      (key : Result (Option Key)) (nonces : Dict ℕ)
      → choose u key nonces ≡ pass
      → is_passed key ≡ true
  unfolding choose
  choose-pass (err x) nonces e = cc
  choose-pass (ok none) nonces e = cc
  choose-pass (ok (some key)) nonces e =
      rw (choose_address-pass (known_address u.book key) nonces e, is_passed) refl

  choose-go :
      (key : Result (Option Key)) (nonces : Dict ℕ) (n : Option ℕ) (nonces' : Dict ℕ)
      → choose u key nonces ≡ go n nonces'
      → is_passed key ≡ false
  unfolding choose choose_address
  choose-go (err x) nonces n nonces' e = cc
  choose-go (ok none) nonces n nonces' e = refl
  choose-go (ok (some key)) nonces n nonces' e = elim (Option-cases (known_address u.book key)) [
    | inl missing ↦ let clash : pass ≡ go n nonces' = rw missing at e in cc
    | inr (address, found) ↦ rw (found, is_passed) refl
  ]

  submit_each-number_left :
      (count : ℕ) (ts : List Template) (nonces : Dict ℕ) (s s' : Client) (n : ℕ)
      → submit_each u count ts nonces s ≡ (ok n, s')
      → n ≡ count + number_left ts
  unfolding submit_each
  submit_each-number_left count [] nonces s s' n e = omega (arith, ok_inj count n (ap (λ y. y.0) e))
  submit_each-number_left count (t ∷ ts) nonces s s' n e =
      elim (Choice-cases (choose u (signer_key u t) nonces)) [
        | inl passed ↦
            rw (choose-pass (signer_key u t) nonces passed)
              (submit_each-number_left count ts nonces s s' n (rw (passed, submit_each) at e))
        | inr (inl failed) ↦
            let clash : ◌≡◌ {A = Result ℕ × Client} (err key_error, s) (ok n, s') =
              rw (failed, submit_each) at e in
            cc
        | inr (inr (nonce, (nonces', taken))) ↦
            let (_, (s1, (_, later))) =
              bind_inv (submit_one u (u.turn count) t nonce)
                (λ _. submit_each u (count + 1) ts nonces') n s s' (rw (taken, submit_each) at e) in
            rw (choose-go (signer_key u t) nonces nonce nonces' taken)
              (omega (arith, submit_each-number_left (count + 1) ts nonces' s1 s' n later))
      ]

  submit_numbered-number_left :
      (ts : List Template) (r : Result (Dict ℕ)) (s s' : Client) (n : ℕ)
      → submit_numbered u ts r s ≡ (ok n, s')
      → n ≡ number_left ts
  unfolding submit_numbered
  submit_numbered-number_left ts (err x) s s' n e =
      let clash : ◌≡◌ {A = Result ℕ × Client} (err x, s) (ok n, s') = e in cc
  submit_numbered-number_left ts (ok nonces) s s' n e =
      submit_each-number_left 0 ts nonces s s' n e ∙ (omega arith)

  -- The number that a submission returns is that of the templates that have no signer, or a signer
  -- whose address is in the book.
  pub submit_txs_for_user-number_left :
      (ts : List Template) (s s' : Client) (n : ℕ)
      → submit_txs_for_user u ts s ≡ (ok n, s')
      → n ≡ number_left ts
  unfolding submit_txs_for_user
  submit_txs_for_user-number_left ts s s' n e =
      let (r, p) = first_nonces u ts [] s.pool in
      submit_numbered-number_left ts r (record s { pool = p }) s' n e
