-- ===== src/Tests/Pool.antt =====
-- A mempool that is empty and then takes a payment.
use bachi_coin.Prelude.{
  ℕ, ◌≡◌, refl, true, false, none, some, [], arith, length, keep, any_of, pos, get_elem?,
}
use bachi_coin.Prelude.{All, false}
use bachi_coin.Dict.{get}
use bachi_coin.Exec.{Error, err}
use bachi_coin.Tx.{Tx, TxType}
use bachi_coin.Admission.{Formats, validate_mempool_transaction}
use bachi_coin.Mempool.{
  Entry, Pool, reload_state, submit_tx, remove_transaction, get_pending_transactions, has_hash,
  is_pending,
}
use bachi_coin.Mempool.{cleanup_expired, hashes_of, is_expired}
use bachi_coin.Mempool.Expiry.{cleanup_expired-IsWellFormed, cleanup_expired-is_expired}
use bachi_coin.Mempool.Queue.{IsWellFormed, IsWellFormed-lookup}
use bachi_coin.Mempool.Submit.{submit_tx-IsWellFormed}
use bachi_coin.Mempool.Rules.{
  WithinAccountLimit, submit_tx-WithinAccountLimit, submit_tx-canonical, submit_tx-nonce_gap,
}
use bachi_coin.Mempool.Priority.{IsDescending, get_pending_transactions-sorts}
use bachi_coin.Mempool.Cleanup.{remove_transaction-IsWellFormed}

abbrev pub formats : Formats
formats = record {
  is_valid_tx_hash = λ _. true;
  is_valid_address = λ _. true;
  is_valid_signature = λ _. true;
  tx_size = λ _. 300;
}

abbrev pub payment_at : ℕ → Tx
payment_at n = record {
  tx_hash = 400;
  tx_type = TxType.transfer;
  from_address = some 100;
  to_address = some 101;
  nonce = some n;
  amount = pos 200;
  total_fee = pos 5;
  max_fee_per_gas = pos 40000000000;
  max_priority_fee_per_gas = pos 2000000000;
  gas_limit = 21000;
  gas_used = none;
  signature = some 3;
}

abbrev pub empty_pool : Pool
empty_pool = record {
  tx_queue = [];
  tx_lookup = [];
  fee_stats = record { max_fees = []; priority_fees = [] };
  storage = none;
}

pub empty_pool-IsWellFormed : IsWellFormed empty_pool
unfolding reload_state
empty_pool-IsWellFormed = record {
  fresh = refl;
  lookup = refl;
  distinct = tt;
  within = omega arith;
}

empty_pool-WithinAccountLimit : WithinAccountLimit empty_pool
empty_pool-WithinAccountLimit addr = omega arith

abbrev one_payment : Pool
one_payment =
    (submit_tx (validate_mempool_transaction formats) 1000 (λ _. 0) (payment_at 0) empty_pool).1

-- The payment is accepted, and a second one with its nonce is not.
accepts : length one_payment.tx_queue ≡ 1
unfolding submit_tx validate_mempool_transaction
accepts = refl

submit_tx-IsWellFormed_example : IsWellFormed one_payment
submit_tx-IsWellFormed_example =
    submit_tx-IsWellFormed (validate_mempool_transaction formats) 1000 (λ _. 0) (payment_at 0)
      empty_pool empty_pool-IsWellFormed

one_payment-IsWellFormed : IsWellFormed one_payment
one_payment-IsWellFormed =
    submit_tx-IsWellFormed (validate_mempool_transaction formats) 1000 (λ _. 0) (payment_at 0)
      empty_pool empty_pool-IsWellFormed

submit_tx-WithinAccountLimit_example : WithinAccountLimit one_payment
submit_tx-WithinAccountLimit_example =
    submit_tx-WithinAccountLimit formats 1000 (λ _. 0) (payment_at 0) empty_pool
      empty_pool-IsWellFormed empty_pool-WithinAccountLimit

canonical_ignored :
    submit_tx (validate_mempool_transaction formats) 1000 (λ _. 0) (payment_at 0) empty_pool
    ≡ submit_tx (validate_mempool_transaction formats) 1000 (λ _. 900) (payment_at 0) empty_pool
canonical_ignored = submit_tx-canonical formats 1000 (λ _. 0) (λ _. 900) (payment_at 0) empty_pool

submit_tx-nonce_gap_example :
    (e : Error) × (submit_tx
        (validate_mempool_transaction formats)
        1000
        (λ _. 1200)
        (payment_at 1200)
        empty_pool
      ≡ (err e, empty_pool))
submit_tx-nonce_gap_example =
    submit_tx-nonce_gap formats 1000 (λ _. 1200) (payment_at 1200) empty_pool 1200
      empty_pool-IsWellFormed refl (omega arith)

at_zero : get 400 one_payment.tx_lookup ≡ some 0
unfolding submit_tx validate_mempool_transaction
at_zero = refl

found_at_zero : (e : Entry) × ((get_elem? one_payment.tx_queue 0 ≡ some e) × (e.tx.tx_hash ≡ 400))
found_at_zero = IsWellFormed-lookup one_payment 400 0 one_payment-IsWellFormed at_zero

after_removal :
    IsWellFormed (remove_transaction 400 one_payment).1
    × (any_of (has_hash 400) (remove_transaction 400 one_payment).1.tx_queue ≡ false)
    × ((remove_transaction 400 one_payment).0 ≡ any_of (has_hash 400) one_payment.tx_queue)
after_removal = remove_transaction-IsWellFormed 400 one_payment one_payment-IsWellFormed

after_cleanup :
    IsWellFormed (cleanup_expired 20000 one_payment).1
    × ((cleanup_expired 20000 one_payment).0.0
        ≡ length (hashes_of (keep (is_expired 20000) one_payment.tx_queue)))
    × ((cleanup_expired 20000 one_payment).0.1
        ≡ length (cleanup_expired 20000 one_payment).1.tx_queue)
after_cleanup = cleanup_expired-IsWellFormed 20000 one_payment one_payment-IsWellFormed

none_expired : All (λ e. is_expired 20000 e ≡ false) (cleanup_expired 20000 one_payment).1.tx_queue
none_expired = cleanup_expired-is_expired 20000 one_payment one_payment-IsWellFormed

get_pending_transactions-sorts_example :
    IsDescending
      (λ e. e.tx.max_priority_fee_per_gas)
      (get_pending_transactions (λ e. e.tx.max_priority_fee_per_gas) none one_payment).0
    × (length (
          keep
            (has_hash 400)
            (get_pending_transactions (λ e. e.tx.max_priority_fee_per_gas) none one_payment).0)
        ≡ length (
            keep
              (has_hash 400)
              (keep (λ e. is_pending e.status) (reload_state one_payment).tx_queue)))
get_pending_transactions-sorts_example =
    get_pending_transactions-sorts (λ e. e.tx.max_priority_fee_per_gas) one_payment (has_hash 400)
