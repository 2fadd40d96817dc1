-- ===== src/Submission/Kept.antt =====
-- The invariants of the services over a submission of many transactions.
use bachi_coin.Prelude.{
  ℕ, ◌+◌, ◌≡◌, refl, sym, ◌∙◌, Option, none, some, List, [], ◌∷◌, inl, inr, ◌⊎◌, Bool-cases,
}
use mathlib.Core.Path.{subst}
use bachi_coin.Dict.{Key, Dict, contains}
use bachi_coin.Exec.{Result, ok, err, bind_holds}
use bachi_coin.Tx.{Tx}
use bachi_coin.TxIndex.{TxStore}
use bachi_coin.TxIndex.Indexed.{IsIndexed}
use bachi_coin.Mempool.{Pool, get_pending_transactions, reload_state}
use bachi_coin.Mempool.Queue.{IsWellFormed}
use bachi_coin.Mempool.Submit.{submit_tx-IsWellFormed}
use bachi_coin.Submission.{Template, create_signed_tx}
use bachi_coin.Submission.Created.{create_signed_tx-either}
use bachi_coin.Submission.Batch.{
  signer_key, note_signer, Client, Setup, Turn, Choice, pass, fail, go, first_nonce, note_address,
  signer_address, first_nonces, choose, submit_made, submit_one, submit_each, submit_numbered,
  submit_txs_for_user,
}

-- The services of a client that are as they should be.
pub record IsSound (s : Client) : Type 0 where
  pub indexed : IsIndexed s.txs
  pub well_formed : IsWellFormed s.pool

create-IsIndexed :
    (u : Setup) (t : Template) (nonce : Option ℕ) (s : TxStore)
    → IsIndexed s
    → IsIndexed (create_signed_tx u.crypto u.formats u.book (some u.keys) t nonce s).1
create-IsIndexed u t nonce s h =
    elim (create_signed_tx-either u.crypto u.formats u.book (some u.keys) t nonce s h) [
      | inl (tx, (answer, created)) ↦ created.indexed
      | inr (e, (answer, same)) ↦ subst IsIndexed (sym same) h
    ]

pub Choice-cases :
    (x : Choice)
    → (x ≡ pass) ⊎ ((x ≡ fail) ⊎ ((nonce : Option ℕ) × ((nonces : Dict ℕ) × (x ≡ go nonce nonces))))
Choice-cases pass = inl refl
Choice-cases fail = inr (inl refl)
Choice-cases (go nonce nonces) = inr (inr (nonce, (nonces, refl)))

module _ (u : Setup) where
  first_nonce-same :
      (address : Key) (nonces : Dict ℕ) (p : Pool)
      → reload_state p ≡ p
      → (first_nonce u address nonces p).1 ≡ p
  unfolding first_nonce get_pending_transactions
  first_nonce-same address nonces p h = h

  pub note_address-same :
      (address : Option Key) (nonces : Dict ℕ) (p : Pool)
      → reload_state p ≡ p
      → (note_address u address nonces p).1 ≡ p
  unfolding note_address
  note_address-same none nonces p h = refl
  note_address-same (some address) nonces p h = elim (Bool-cases (contains address nonces)) [
    | inl known ↦ rw known refl
    | inr new ↦ rw new (first_nonce-same address nonces p h)
  ]

  pub note_signer-same :
      (key : Result (Option Key)) (nonces : Dict ℕ) (p : Pool)
      → reload_state p ≡ p
      → (note_signer u key nonces p).1 ≡ p
  unfolding note_signer
  note_signer-same (err e) nonces p h = refl
  note_signer-same (ok key) nonces p h = note_address-same (signer_address u key) nonces p h

  -- The first loop reads a pool that agrees with its storage and leaves it alone.
  pub first_nonces-same :
      (ts : List Template) (nonces : Dict ℕ) (p : Pool)
      → reload_state p ≡ p
      → (first_nonces u ts nonces p).1 ≡ p
  unfolding first_nonces
  first_nonces-same [] nonces p h = refl
  first_nonces-same (t ∷ ts) nonces p h =
      let key = signer_key u t in
      bind_holds (note_signer u key nonces) (first_nonces u ts) (λ p'. p' ≡ p) p
        (note_signer-same key nonces p h)
        (λ nonces' p' same.
          first_nonces-same ts nonces' p' (subst (λ q. reload_state q ≡ q) (sym same) h) ∙ same)

  submit_made-IsSound :
      (turn : Turn) (r : Result Tx) (s : Client)
      → ((s : Client) → IsSound s → IsSound (turn.others s))
      → IsSound s
      → IsSound (submit_made u turn r s).1
  unfolding submit_made
  submit_made-IsSound turn (err e) s others h = h
  submit_made-IsSound turn (ok tx) s others h =
      let h' = others s h in
      record {
        indexed = h'.indexed;
        well_formed =
            submit_tx-IsWellFormed u.validator turn.now u.canonical_nonce tx (turn.others s).pool
              h'.well_formed;
      }

  submit_one-IsSound :
      (turn : Turn) (t : Template) (nonce : Option ℕ) (s : Client)
      → ((s : Client) → IsSound s → IsSound (turn.others s))
      → IsSound s
      → IsSound (submit_one u turn t nonce s).1
  unfolding submit_one
  submit_one-IsSound turn t nonce s others h =
      let (r, txs) = create_signed_tx u.crypto u.formats u.book (some u.keys) t nonce s.txs in
      submit_made-IsSound turn r (record s { txs = txs }) others
        (record {
          indexed = create-IsIndexed u t nonce s.txs h.indexed;
          well_formed = h.well_formed;
        })

  -- What other tasks do keeps the services sound.
  abbrev pub AreSound : Type 0
  AreSound = (count : ℕ) (s : Client) → IsSound s → IsSound ((u.turn count).others s)

  submit_each-IsSound :
      (count : ℕ) (ts : List Template) (nonces : Dict ℕ) (s : Client)
      → AreSound
      → IsSound s
      → IsSound (submit_each u count ts nonces s).1
  unfolding submit_each
  submit_each-IsSound count [] nonces s others h = h
  submit_each-IsSound count (t ∷ ts) nonces s others h =
      elim (Choice-cases (choose u (signer_key u t) nonces)) [
        | inl passed ↦ rw (passed, submit_each) (submit_each-IsSound count ts nonces s others h)
        | inr (inl failed) ↦ rw (failed, submit_each) h
        | inr (inr (nonce, (nonces', taken))) ↦
            rw (taken, submit_each)
              (bind_holds (submit_one u (u.turn count) t nonce)
                (λ _. submit_each u (count + 1) ts nonces') IsSound s
                (submit_one-IsSound (u.turn count) t nonce s (others count) h)
                (λ _ s' h'. submit_each-IsSound (count + 1) ts nonces' s' others h'))
      ]

  submit_numbered-IsSound :
      (ts : List Template) (r : Result (Dict ℕ)) (s : Client)
      → AreSound
      → IsSound s
      → IsSound (submit_numbered u ts r s).1
  unfolding submit_numbered
  submit_numbered-IsSound ts (err e) s others h = h
  submit_numbered-IsSound ts (ok nonces) s others h = submit_each-IsSound 0 ts nonces s others h

  -- A submission of any templates, on every branch, keeps the index of the transaction service equal
  -- to its records and the pool well-formed, if what other tasks do while it waits does.
  pub submit_txs_for_user-IsSound :
      (ts : List Template) (s : Client)
      → AreSound
      → IsSound s
      → IsSound (submit_txs_for_user u ts s).1
  unfolding submit_txs_for_user
  submit_txs_for_user-IsSound ts s others h =
      let same = first_nonces-same ts [] s.pool h.well_formed.fresh in
      submit_numbered-IsSound ts (first_nonces u ts [] s.pool).0
        (record s { pool = (first_nonces u ts [] s.pool).1 }) others
        (record { indexed = h.indexed; well_formed = subst IsWellFormed (sym same) h.well_formed })
