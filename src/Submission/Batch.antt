-- ===== src/Submission/Batch.antt =====
-- The submission of a user's transactions: `submit_txs_for_user` of
-- src/BachiCoin/lib_transaction/tx_submittal.py. What other tasks do during a wait is a parameter.
use bachi_coin.Prelude.{ℕ, ◌+◌, Bool, false, Option, none, some, List, [], ◌∷◌, if◌then◌else◌, ℤ}
use bachi_coin.Dict.{Key, Dict, get, put, contains}
use bachi_coin.Exec.{Result, ok, err, assertion_failed, key_error, ◌>>=◌}
use bachi_coin.Tx.{Tx, TxType}
use bachi_coin.TxCheck.{TxFormats}
use bachi_coin.TxIndex.{TxStore}
use bachi_coin.Admission.{Rejection, PoolState, AccountState}
use bachi_coin.Mempool.{Entry, Pool, get_pending_transactions, get_pending_nonces, submit_tx}
use bachi_coin.Nonce.{calculate_next_nonce}
use bachi_coin.Wallet.{Wallet, WalletStore, get_wallet_id_by_address, get_wallet_summary}
use bachi_coin.Signer.{Crypto, truthy}
use bachi_coin.Submission.{
  Template, Ref, Book, ref_key, and_then, is_user_signed, known_address, create_signed_tx,
}

-- The services that a submission changes.
pub record Client : Type 0 where
  pub txs : TxStore
  pub pool : Pool

-- What the wait before a submission does, and the clock after it.
pub record Turn : Type 0 where
  pub others : Client → Client
  pub now : ℕ

-- What stays the same during a call.
pub record Setup : Type 0 where
  pub crypto : Crypto
  pub formats : TxFormats
  pub book : Book
  pub keys : Dict Key
  pub wallets : WalletStore
  pub score : Entry → ℤ
  pub validator : Tx → PoolState → AccountState → List Rejection
  pub canonical_nonce : Key → ℕ
  pub turn : ℕ → Turn

unfoldable pub summary_nonce : Option Wallet → Result ℕ
summary_nonce none = err assertion_failed
summary_nonce (some w) = ok w.nonce

unfoldable pub wallet_nonce : Option Key → WalletStore → Result ℕ
wallet_nonce none w = err assertion_failed
wallet_nonce (some wid) w = summary_nonce (get_wallet_summary wid w)

-- `get_nonce`
unfoldable pub get_nonce : Key → WalletStore → Result ℕ
get_nonce address w = wallet_nonce (truthy (get_wallet_id_by_address address w)) w

unfoldable pub signs : Option TxType → Bool
signs none = false
signs (some type) = is_user_signed type

-- The reference to the sender, if the sender signs.
unfoldable pub signer_ref : Template → Option Ref
signer_ref t = if signs t.tx_type then t.from_ref else none

-- What the second loop does with a template.
pub data Choice : Type 0 where
  pass : Choice
  -- a missing key
  fail : Choice
  go : Option ℕ → Dict ℕ → Choice

unfoldable pub enter_nonce : Key → List ℕ → Dict ℕ → Result ℕ → Result (Dict ℕ)
enter_nonce address pending nonces (err e) = err e
enter_nonce address pending nonces (ok canonical) =
    ok (put address (calculate_next_nonce canonical pending) nonces)

unfoldable pub take_nonce : Key → Option ℕ → Dict ℕ → Choice
take_nonce address none nonces = fail
take_nonce address (some n) nonces = go (some n) (put address (n + 1) nonces)

unfoldable pub choose_address : Option Key → Dict ℕ → Choice
choose_address none nonces = pass
choose_address (some address) nonces = take_nonce address (get address nonces) nonces

unfoldable pub key_of_ref : Book → Option Ref → Result (Option Key)
key_of_ref book none = ok none
key_of_ref book (some ref) = and_then (ref_key book ref) (λ key. ok (some key))

module _ (u : Setup) where
  -- The book key of the sender, if the sender signs.
  unfoldable pub signer_key : Template → Result (Option Key)
  signer_key t = key_of_ref u.book (signer_ref t)

  -- The next nonce of an address, after all pending transactions.
  unfoldable pub first_nonce : Key → Dict ℕ → Pool → Result (Dict ℕ) × Pool
  first_nonce address nonces p =
      let (pending, p') = get_pending_transactions u.score none p in
      (enter_nonce address (get_pending_nonces pending) nonces (get_nonce address u.wallets), p')

  unfoldable pub note_address : Option Key → Dict ℕ → Pool → Result (Dict ℕ) × Pool
  note_address none nonces p = (ok nonces, p)
  note_address (some address) nonces p =
      if contains address nonces then (ok nonces, p) else first_nonce address nonces p

  unfoldable pub signer_address : Option Key → Option Key
  signer_address none = none
  signer_address (some key) = known_address u.book key

  unfoldable pub note_signer : Result (Option Key) → Dict ℕ → Pool → Result (Dict ℕ) × Pool
  note_signer (err e) nonces p = (err e, p)
  note_signer (ok key) nonces p = note_address (signer_address key) nonces p

  -- The first loop, from some nonces on.
  unfoldable pub first_nonces : List Template → Dict ℕ → Pool → Result (Dict ℕ) × Pool
  first_nonces [] nonces p = (ok nonces, p)
  first_nonces (t ∷ ts) nonces p = (note_signer (signer_key t) nonces >>= first_nonces ts) p

  -- A template with a signer whose address is unknown is passed over.
  unfoldable pub choose : Result (Option Key) → Dict ℕ → Choice
  choose (err e) nonces = fail
  choose (ok none) nonces = go none nonces
  choose (ok (some key)) nonces = choose_address (known_address u.book key) nonces

  -- After the making: the wait, then the mempool.
  unfoldable pub submit_made : Turn → Result Tx → Client → Result Key × Client
  submit_made turn (err e) s = (err e, s)
  submit_made turn (ok tx) s =
      let s' = turn.others s in
      let (r, p) = submit_tx u.validator turn.now u.canonical_nonce tx s'.pool in
      (r, record s' { pool = p })

  -- The making and submission of one transaction.
  unfoldable pub submit_one : Turn → Template → Option ℕ → Client → Result Key × Client
  submit_one turn t nonce s =
      let (r, txs) = create_signed_tx u.crypto u.formats u.book (some u.keys) t nonce s.txs in
      submit_made turn r (record s { txs = txs })

  -- The second loop, from a count on.
  unfoldable pub submit_each : ℕ → List Template → Dict ℕ → Client → Result ℕ × Client
  submit_each count [] nonces s = (ok count, s)
  submit_each count (t ∷ ts) nonces s = elim (choose (signer_key t) nonces) [
    | pass ↦ submit_each count ts nonces s
    | fail ↦ (err key_error, s)
    | go nonce nonces' ↦
        (submit_one (u.turn count) t nonce >>= (λ _. submit_each (count + 1) ts nonces')) s
  ]

  unfoldable pub submit_numbered : List Template → Result (Dict ℕ) → Client → Result ℕ × Client
  submit_numbered ts (err e) s = (err e, s)
  submit_numbered ts (ok nonces) s = submit_each 0 ts nonces s

  -- `submit_txs_for_user`. With no templates both loops do nothing.
  unfoldable pub submit_txs_for_user : List Template → Client → Result ℕ × Client
  submit_txs_for_user ts s =
      let (r, p) = first_nonces ts [] s.pool in submit_numbered ts r (record s { pool = p })
