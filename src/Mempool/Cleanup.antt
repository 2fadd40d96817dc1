-- ===== src/Mempool/Cleanup.antt =====
-- Taking transactions out of the mempool: `remove_transaction`.
use bachi_coin.Prelude.{
  ◌≡◌, refl, ap, ◌∙◌, true, false, not, List, [], ◌∷◌, arith, keep, any_of, if◌then◌else◌,
  Bool-cases, inl, inr, length-keep,
}
use bachi_coin.Dict.{Key}
use bachi_coin.Mempool.{
  Entry, Pool, reload_state, load_saved, persist_state, remove_from_queue, remove_transaction,
  has_hash,
}
use bachi_coin.Mempool.Queue.{IsWellFormed, AllDistinct-keep}

removed-IsWellFormed :
    (hash : Key) (s : Pool)
    → IsWellFormed s
    → IsWellFormed (persist_state (remove_from_queue hash s))
unfolding persist_state remove_from_queue reload_state load_saved
removed-IsWellFormed hash s h = record {
  fresh = refl;
  lookup = refl;
  distinct = AllDistinct-keep (λ e. not (has_hash hash e)) s.tx_queue h.distinct;
  within = omega (arith, h.within, length-keep (λ e. not (has_hash hash e)) s.tx_queue);
}

remove_transaction-fresh :
    (hash : Key) (s : Pool)
    → reload_state s ≡ s
    → remove_transaction hash s ≡ (
        if any_of (has_hash hash) s.tx_queue
        then (true, persist_state (remove_from_queue hash s))
        else (false, s))
unfolding remove_transaction
remove_transaction-fresh hash s h =
    ap
      (λ s'.
        if any_of (has_hash hash) s'.tx_queue
        then (true, persist_state (remove_from_queue hash s'))
        else (false, s'))
      h

-- A queue without the entries of a hash has none of them.
keep-none_left :
    (hash : Key) (es : List Entry)
    → any_of (has_hash hash) (keep (λ e. not (has_hash hash e)) es) ≡ false
keep-none_left hash [] = refl
keep-none_left hash (e ∷ es) = ground (arith, keep-none_left hash es)

tx_queue-remove :
    (hash : Key) (s : Pool)
    → (persist_state (remove_from_queue hash s)).tx_queue
      ≡ keep (λ e. not (has_hash hash e)) s.tx_queue
unfolding persist_state remove_from_queue
tx_queue-remove hash s = refl

-- A removal keeps a pool well-formed, leaves no entry of the hash, and reports whether there was
-- one.
pub remove_transaction-IsWellFormed :
    (hash : Key) (s : Pool)
    → IsWellFormed s
    → let (found, s') = remove_transaction hash s in
      IsWellFormed s'
      × (any_of (has_hash hash) s'.tx_queue ≡ false)
      × (found ≡ any_of (has_hash hash) s.tx_queue)
remove_transaction-IsWellFormed hash s h = elim (Bool-cases (any_of (has_hash hash) s.tx_queue)) [
  | inl found ↦
      rw (remove_transaction-fresh hash s h.fresh, found)
        (
          removed-IsWellFormed hash s h,
          ap (any_of (has_hash hash)) (tx_queue-remove hash s) ∙ keep-none_left hash s.tx_queue,
          refl,
        )
  | inr missing ↦ rw (remove_transaction-fresh hash s h.fresh, missing) (h, missing, refl)
]
