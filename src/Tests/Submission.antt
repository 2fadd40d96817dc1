-- ===== src/Tests/Submission.antt =====
-- A user with one wallet, who sends a payment and stakes without an address of the pool.
use bachi_coin.Prelude.{
  All, ◌+ℤ◌, ◌-ℤ◌, ◌+◌, ◌-◌, ◌≡◌, ◌≢◌, refl, none, some, List, [], ◌∷◌, arith, pos, ◌⊎◌,
}
use bachi_coin.Dict.{Key, Dict}
use bachi_coin.Exec.{Error, ok, err, key_error}
use bachi_coin.Submission.Subscript.{submit_txs_for_user-IsKeyed}
use bachi_coin.Tx.{
  Tx, TxType, Priority, fee_defaults, calculate_total_fee, calculate_effective_gas_price,
}
use bachi_coin.Wallet.{
  Wallet, WalletType, WalletStore, get_wallet_id_by_address, get_wallet_summary,
}
use bachi_coin.Admission.{validate_mempool_transaction}
use bachi_coin.Mempool.{Pool, submit_tx, get_pending_transactions, get_pending_nonces}
use bachi_coin.Mempool.Queue.{IsWellFormed}
use bachi_coin.Mempool.Submit.{submit_tx-IsWellFormed}
use bachi_coin.Nonce.{calculate_next_nonce, highest}
use bachi_coin.TxIndex.{save_signed_transaction, save_checked, save_and_index, save_valid}
use bachi_coin.TxCheck.{
  validate_transaction, validate_enums, validate_fields, validate_gas_fees,
  validate_structure_by_type,
}
use bachi_coin.Signer.{
  Crypto, truthy, create_canonical_tx_hash, get_canonical_tx_data, verify_transaction_signature,
}
use bachi_coin.Submission.Errors.{IsComplete}
use bachi_coin.Submission.{
  Book, Ref, ref_key, Template, save_final, prepare, prepare_typed, resolve_from, known_address,
  resolve_to, check_nonce, sign_if_required, create_tx_with_index, sign_with,
  get_pvt_key_for_address, create_signed_tx, is_user_signed,
}
use bachi_coin.Submission.Created.{IsCreated, create_signed_tx-either}
use bachi_coin.Submission.Signed.{IsCurve, AreTheirKeys, create_signed_tx-verifies}
use bachi_coin.Submission.Batch.{
  signer_key, note_signer, key_of_ref, submit_numbered, submit_each, submit_one, submit_made,
  choose, choose_address, take_nonce, Client, Setup, first_nonces, note_address, first_nonce,
  enter_nonce, signer_ref, signer_address, signs, get_nonce, wallet_nonce, summary_nonce,
  submit_txs_for_user,
}
use bachi_coin.Submission.Kept.{IsSound, submit_txs_for_user-IsSound}
use bachi_coin.Submission.Numbered.{
  AreAbove, number_left, first_nonces-AreAbove, submit_txs_for_user-number_left,
}
use bachi_coin.Tests.Nodes.{tx_formats}
use bachi_coin.Tests.Pool.{formats, empty_pool, empty_pool-IsWellFormed, payment_at}
use bachi_coin.Tests.Txs.{no_txs, no_txs-IsIndexed}

-- A signature is the sum of the hash and the public key, which is the private key and one.
abbrev toy : Crypto
toy = record {
  hash_data = λ d. 400 + elim d.nonce [ none ↦ 0 | some n ↦ n ];
  sign_message_recoverable = λ hash private_key. hash + (private_key + 1);
  recover_public_key = λ hash signature. some (signature - hash);
  public_key_to_address = λ public_key. public_key + 98;
  lower = λ text. text;
}

toy-IsCurve : IsCurve toy (λ private_key. private_key + 1)
toy-IsCurve = record {
  signature_given = λ hash private_key e. omega (arith, e);
  public_given = λ private_key e. omega (arith, e);
  recovered = λ hash private_key. ground arith;
}

abbrev keys : Dict Key
keys = (100, 1) ∷ []

keys-AreTheirKeys : AreTheirKeys toy (λ private_key. private_key + 1) keys
keys-AreTheirKeys = record { theirs = λ address private_key e. ground (arith, e) }

-- The text of a user and a wallet is their sum.
abbrev book : Book
book = record { addresses = (10, 100) ∷ (11, 101) ∷ []; ref_text = λ user wallet. user + wallet }

abbrev ref_of : Key → Key → Ref
ref_of user wallet = record { user = some user; wallet = some wallet }

abbrev pays : Template
pays = record {
  tx_type = some TxType.transfer;
  from_ref = some (ref_of 8 2);
  to_ref = some (ref_of 8 3);
  amount = some (pos 200);
  priority = Priority.standard;
}

abbrev paid : Tx
paid = record (payment_at 0) { total_fee = pos 46200; gas_used = some 21000; signature = some 402 }

makes : (create_signed_tx toy tx_formats book (some keys) pays (some 0) no_txs).0 ≡ ok paid
unfolding ref_key create_signed_tx save_final prepare prepare_typed resolve_from known_address
    truthy resolve_to check_nonce is_user_signed sign_if_required create_tx_with_index sign_with
    get_pvt_key_for_address save_signed_transaction save_checked validate_transaction fee_defaults
    ◌+ℤ◌ ◌-ℤ◌ create_canonical_tx_hash get_canonical_tx_data calculate_effective_gas_price
    calculate_total_fee validate_enums validate_fields validate_gas_fees validate_structure_by_type
    save_and_index save_valid
makes = refl

create_signed_tx-verifies_example :
    verify_transaction_signature toy paid ≡ is_user_signed TxType.transfer
create_signed_tx-verifies_example =
    create_signed_tx-verifies toy (λ private_key. private_key + 1) tx_formats book keys pays
      (some 0) no_txs paid toy-IsCurve keys-AreTheirKeys makes

create_signed_tx-either_example :
    let (answer, s') = create_signed_tx toy tx_formats book (some keys) pays (some 0) no_txs in
    ((tx : Tx) × ((answer ≡ ok tx) × IsCreated tx_formats tx s'))
    ⊎ ((e : Error) × ((answer ≡ err e) × (s' ≡ no_txs)))
create_signed_tx-either_example =
    create_signed_tx-either toy tx_formats book (some keys) pays (some 0) no_txs no_txs-IsIndexed

abbrev wallet : Wallet
wallet = record {
  user_id = 50;
  name = 51;
  wallet_type = WalletType.private;
  status = 52;
  balance = pos 1000;
  nonce = 0;
  addresses = 100 ∷ [];
}

abbrev wallets : WalletStore
wallets = record { records = (60, wallet) ∷ []; index = (60, wallet) ∷ [] }

abbrev setup : Setup
setup = record {
  crypto = toy;
  formats = tx_formats;
  book = book;
  keys = keys;
  wallets = wallets;
  score = λ _. pos 0;
  validator = validate_mempool_transaction formats;
  canonical_nonce = λ _. 0;
  turn = λ count. record { others = λ s. s; now = 1000 + count };
}

abbrev client : Client
client = record { txs = no_txs; pool = empty_pool }

client-IsSound : IsSound client
client-IsSound = record { indexed = no_txs-IsIndexed; well_formed = empty_pool-IsWellFormed }

-- A payment, and one from a wallet that the book does not have.
abbrev templates : List Template
templates = record pays { from_ref = some (ref_of 8 91) } ∷ pays ∷ []

submit_txs_for_user-IsSound_example : IsSound (submit_txs_for_user setup templates client).1
submit_txs_for_user-IsSound_example =
    submit_txs_for_user-IsSound setup templates client (λ count s h. h) client-IsSound

-- Another account has 7 as its pending nonce.
abbrev foreign_pool : Pool
foreign_pool =
    (submit_tx (validate_mempool_transaction formats) 1000 (λ _. 7)
      (record (payment_at 7) { from_address = some 101; to_address = some 100 }) empty_pool).1

foreign_pool-IsWellFormed : IsWellFormed foreign_pool
foreign_pool-IsWellFormed =
    submit_tx-IsWellFormed (validate_mempool_transaction formats) 1000 (λ _. 7)
      (record (payment_at 7) { from_address = some 101; to_address = some 100 }) empty_pool
      empty_pool-IsWellFormed

starts : first_nonces setup (pays ∷ []) [] foreign_pool ≡ (ok ((100, 8) ∷ []), foreign_pool)
unfolding first_nonces signer_key note_signer key_of_ref ref_key note_address first_nonce
    enter_nonce signer_ref signer_address signs is_user_signed known_address truthy get_nonce
    wallet_nonce summary_nonce get_wallet_id_by_address get_wallet_summary calculate_next_nonce
    highest get_pending_transactions get_pending_nonces submit_tx validate_mempool_transaction
starts = refl

first_nonces-AreAbove_example : AreAbove setup foreign_pool ((100, 8) ∷ [])
first_nonces-AreAbove_example =
    first_nonces-AreAbove setup (pays ∷ []) [] ((100, 8) ∷ []) foreign_pool foreign_pool
      foreign_pool-IsWellFormed.fresh tt starts

abbrev after : Client
after = (submit_txs_for_user setup templates client).1

runs : submit_txs_for_user setup templates client ≡ (ok 1, after)
unfolding signer_key note_signer key_of_ref ref_key submit_txs_for_user submit_numbered submit_each
    submit_one submit_made choose choose_address take_nonce create_signed_tx save_final prepare
    prepare_typed resolve_from known_address truthy resolve_to check_nonce is_user_signed
    sign_if_required create_tx_with_index sign_with get_pvt_key_for_address save_signed_transaction
    save_checked validate_transaction fee_defaults ◌+ℤ◌ ◌-ℤ◌ create_canonical_tx_hash
    get_canonical_tx_data calculate_effective_gas_price calculate_total_fee validate_enums
    validate_fields validate_gas_fees validate_structure_by_type save_and_index save_valid
    first_nonces note_address first_nonce enter_nonce signer_ref signer_address signs get_nonce
    wallet_nonce summary_nonce get_wallet_id_by_address get_wallet_summary calculate_next_nonce
    highest get_pending_transactions get_pending_nonces submit_tx validate_mempool_transaction
runs = refl

returned : 1 ≡ number_left setup templates
returned = submit_txs_for_user-number_left setup templates client after 1 runs

templates-IsComplete : All IsComplete templates
templates-IsComplete = (
  record { from_full = (tt, tt); to_full = (tt, tt); amount_given = tt },
  (record { from_full = (tt, tt); to_full = (tt, tt); amount_given = tt }, tt),
)

submit_txs_for_user-IsKeyed_example : (submit_txs_for_user setup templates client).0 ≢ err key_error
submit_txs_for_user-IsKeyed_example =
    submit_txs_for_user-IsKeyed setup templates client templates-IsComplete
