-- ===== src/Mempool.antt =====
-- The mempool service (src/BachiCoin/lib_mempool/mempool_index_service.py and mempool_helper.py,
-- with get_pending_nonces of src/BachiCoin/lib_nonce/nonce.py). The lock is held for each whole
-- call, the clock's reading is an argument, and broadcasting is left out.
pub mod Queue
pub mod Submit
pub mod Rules
pub mod Priority
pub mod Cleanup
pub mod Expiry
use bachi_coin.Prelude.{
  ℕ, ◌+◌, ◌-◌, Bool, true, false, not, ◌&&◌, Option, none, some, List, [], ◌∷◌, ◌++◌, map, length,
  keep, drop, take, any_of, ltb, leb, ◌==◌, if◌then◌else◌, ℤ, ltb_ℤ,
}
use bachi_coin.Dict.{Key, Dict, put}
use bachi_coin.Exec.{
  Result, ok, err, no_tx_hash, duplicate_nonce, validation_failed, fee_below_minimum, pool_full,
}
use bachi_coin.Tx.{Tx}
use bachi_coin.Admission.{
  Rejection, PoolState, AccountState, max_pool_size, min_priority_fee, same_option,
}

pub data MempoolStatus : Type 0 where
  pending queued broadcasting included dropped expired replaced : MempoolStatus

pub record Entry : Type 0 where
  pub tx : Tx
  pub arrival_time : ℕ
  pub status : MempoolStatus

pub record FeeStats : Type 0 where
  pub max_fees : List ℤ
  pub priority_fees : List ℤ

-- What `_persist_state` writes.
pub record Saved : Type 0 where
  pub tx_queue : List Entry
  pub fee_stats : FeeStats

pub record Pool : Type 0 where
  pub tx_queue : List Entry
  pub tx_lookup : Dict ℕ
  pub fee_stats : FeeStats
  pub storage : Option Saved

-- `{tx["tx_hash"]: i for i, tx in enumerate(queue)}`, onto a dict and from a position on.
unfoldable pub index_queue : ℕ → List Entry → Dict ℕ → Dict ℕ
index_queue i [] d = d
index_queue i (e ∷ es) d = index_queue (i + 1) es (put e.tx.tx_hash i d)

-- `create_queue_entry`, without the score, which nothing reads.
unfoldable pub create_queue_entry : ℕ → Tx → Entry
create_queue_entry now tx = record { tx = tx; arrival_time = now; status = MempoolStatus.pending }

unfoldable pub last_100 : List ℤ → List ℤ
last_100 xs = drop (length xs - 100) xs

-- `update_fee_statistics`
unfoldable pub update_fee_statistics : FeeStats → Tx → FeeStats
unfolding last_100
update_fee_statistics f tx = record {
  max_fees = last_100 (f.max_fees ++ tx.max_fee_per_gas ∷ []);
  priority_fees = last_100 (f.priority_fees ++ tx.max_priority_fee_per_gas ∷ []);
}

abbrev pub count_from : Option Key → List Entry → ℕ
count_from addr [] = 0
count_from addr (e ∷ es) =
    let rest = count_from addr es in if same_option e.tx.from_address addr then rest + 1 else rest

-- `get_current_pool_state`
unfoldable pub get_current_pool_state : List Entry → PoolState
get_current_pool_state queue = record {
  total_size = length queue;
  account_pending = λ addr. count_from addr queue;
}

unfoldable pub load_saved : Option Saved → Pool → Pool
unfolding index_queue
load_saved none s = s
load_saved (some saved) s = record s {
  tx_queue = saved.tx_queue;
  fee_stats = saved.fee_stats;
  tx_lookup = index_queue 0 saved.tx_queue [];
}

-- `reload_state`
unfoldable pub reload_state : Pool → Pool
unfolding load_saved
reload_state s = load_saved s.storage s

-- `_persist_state`; persistence is enabled.
unfoldable pub persist_state : Pool → Pool
persist_state s = record s {
  storage = some (record { tx_queue = s.tx_queue; fee_stats = s.fee_stats });
}

unfoldable pub add_to_queue : Entry → Pool → Pool
add_to_queue e s = record s {
  tx_queue = s.tx_queue ++ e ∷ [];
  tx_lookup = put e.tx.tx_hash (length s.tx_queue) s.tx_lookup;
}

abbrev pub has_hash : Key → Entry → Bool
has_hash hash e = e.tx.tx_hash == hash

unfoldable pub remove_from_queue : Key → Pool → Pool
unfolding index_queue
remove_from_queue hash s =
    let rest = keep (λ e. not (has_hash hash e)) s.tx_queue in
    record s { tx_queue = rest; tx_lookup = index_queue 0 rest [] }

abbrev pub from_account : Key → List Entry → List Entry
from_account addr queue = keep (λ e. same_option e.tx.from_address (some addr)) queue

-- `get_account_transactions`
unfoldable pub get_account_transactions : Key → Pool → List Entry × Pool
unfolding reload_state
get_account_transactions addr s = let s' = reload_state s in (from_account addr s'.tx_queue, s')

abbrev insert_nonce : ℕ → List ℕ → List ℕ
insert_nonce n [] = n ∷ []
insert_nonce n (m ∷ ms) = let rest = insert_nonce n ms in if leb n m then n ∷ m ∷ ms else m ∷ rest

-- `get_pending_nonces`
unfoldable pub get_pending_nonces : List Entry → List ℕ
get_pending_nonces [] = []
get_pending_nonces (e ∷ es) =
    let rest = get_pending_nonces es in
    elim e.tx.nonce [ none ↦ rest | some n ↦ insert_nonce n rest ]

-- `from_address`, where an empty text counts as none.
abbrev pub sender_of : Tx → Option Key
sender_of tx = elim tx.from_address [
  | none ↦ none
  | some addr ↦ if addr == 0 then none else some addr
]

unfoldable pub nonce_in_queue : Option Key → Option ℕ → List Entry → Bool
nonce_in_queue (some addr) (some n) queue =
    any_of (λ e. same_option e.tx.nonce (some n)) (from_account addr queue)
nonce_in_queue _ _ queue = false

-- `from_address and nonce is not None`, and the nonce is one of the sender's in the queue.
unfoldable pub is_nonce_taken : Tx → List Entry → Bool
unfolding nonce_in_queue
is_nonce_taken tx queue = nonce_in_queue (sender_of tx) tx.nonce queue

module _ (canonical_nonce : Key → ℕ) where
  -- `_get_account_state`, and the empty state of a transaction with no sender.
  unfoldable pub get_account_state : Option Key → Pool → AccountState × Pool
  unfolding get_account_transactions get_pending_nonces
  get_account_state none s =
      (record { canonical_nonce = some 0; next_nonce = none; pending_nonces = [] }, s)
  get_account_state (some addr) s =
      let (txs, s') = get_account_transactions addr s in
      (
        record {
          canonical_nonce = some (canonical_nonce addr);
          next_nonce = none;
          pending_nonces = get_pending_nonces txs;
        },
        s',
      )

module _ (validator : Tx → PoolState → AccountState → List Rejection) (now : ℕ) where
  -- From the validation on.
  unfoldable pub submit_checked : Tx → PoolState → AccountState × Pool → Result Key × Pool
  unfolding persist_state add_to_queue create_queue_entry update_fee_statistics
  submit_checked tx p (a, s) =
      if leb 1 (length (validator tx p a))
      then (err validation_failed, s)
      else if ltb_ℤ tx.max_priority_fee_per_gas min_priority_fee
      then (err fee_below_minimum, s)
      else if leb max_pool_size (length s.tx_queue)
      then (err pool_full, s)
      else (
        ok tx.tx_hash,
        persist_state (record (add_to_queue (create_queue_entry now tx) s) {
          fee_stats = update_fee_statistics s.fee_stats tx;
        }),
      )

  -- `submit_tx`
  unfoldable pub submit_tx : (Key → ℕ) → Tx → Pool → Result Key × Pool
  unfolding submit_checked get_account_state get_current_pool_state is_nonce_taken
  submit_tx canonical_nonce tx s =
      if tx.tx_hash == 0
      then (err no_tx_hash, s)
      else if is_nonce_taken tx s.tx_queue
      then (err duplicate_nonce, s)
      else submit_checked tx (get_current_pool_state s.tx_queue)
          (get_account_state canonical_nonce (sender_of tx) s)

  -- `handle_network_tx`: `none` where the transaction is known or refused.
  unfoldable pub handle_network_tx : (Key → ℕ) → Tx → Pool → Option Key × Pool
  unfolding submit_tx
  handle_network_tx canonical_nonce tx s =
      if any_of (has_hash tx.tx_hash) s.tx_queue
      then (none, s)
      else let (r, s') = submit_tx canonical_nonce tx s in
        (elim r [ ok hash ↦ some hash | err _ ↦ none ], s')

unfoldable pub remove_transaction : Key → Pool → Bool × Pool
unfolding reload_state remove_from_queue persist_state
remove_transaction hash s =
    let s' = reload_state s in
    if any_of (has_hash hash) s'.tx_queue
    then (true, persist_state (remove_from_queue hash s'))
    else (false, s')

-- 3 hours
abbrev pub tx_lifetime_seconds : ℕ
tx_lifetime_seconds = 10800

-- The clock never goes back, so the natural subtraction is the source's.
abbrev pub is_expired : ℕ → Entry → Bool
is_expired now e = ltb tx_lifetime_seconds (now - e.arrival_time)

unfoldable pub remove_all : List Key → Pool → Pool
unfolding remove_from_queue
remove_all [] s = s
remove_all (hash ∷ hashes) s = remove_all hashes (remove_from_queue hash s)

abbrev pub hashes_of : List Entry → List Key
hashes_of es = map (λ e. e.tx.tx_hash) es

-- `cleanup_expired`, with the counts that it returns.
unfoldable pub cleanup_expired : ℕ → Pool → (ℕ × ℕ) × Pool
unfolding reload_state remove_all persist_state
cleanup_expired now s =
    let s' = reload_state s in
    let hashes = hashes_of (keep (is_expired now) s'.tx_queue) in
    let left = remove_all hashes s' in
    let done = if leb 1 (length hashes) then persist_state left else left in
    ((length hashes, length done.tx_queue), done)

unfoldable pub is_pending : MempoolStatus → Bool
is_pending MempoolStatus.pending = true
is_pending _ = false

module _ (score : Entry → ℤ) where
  unfoldable pub insert_by_score : Entry → List Entry → List Entry
  insert_by_score e [] = e ∷ []
  insert_by_score e (x ∷ xs) =
      let rest = insert_by_score e xs in if ltb_ℤ (score e) (score x) then x ∷ rest else e ∷ x ∷ xs

  -- `sort(key=score, reverse=True)`, which keeps the order of equal scores.
  unfoldable pub sort_by_score : List Entry → List Entry
  unfolding insert_by_score
  sort_by_score [] = []
  sort_by_score (e ∷ es) = insert_by_score e (sort_by_score es)

  -- `get_pending_transactions`: a limit of 0 is no limit.
  unfoldable pub get_pending_transactions : Option ℕ → Pool → List Entry × Pool
  unfolding reload_state sort_by_score is_pending
  get_pending_transactions limit s =
      let s' = reload_state s in
      let sorted = sort_by_score (keep (λ e. is_pending e.status) s'.tx_queue) in
      (elim limit [ none ↦ sorted | some n ↦ if n == 0 then sorted else take n sorted ], s')
