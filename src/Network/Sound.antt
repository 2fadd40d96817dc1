-- ===== src/Network/Sound.antt =====
-- The mempools of a network over all its runs.
use bachi_coin.Prelude.{
  ℕ, ◌≡◌, refl, some, Bool-cases, Option-cases, inl, inr, length, any_of, ◌==◌, ◌++◌,
}
use bachi_coin.Dict.{Key, get, put, AllValues, AllValues-get, AllValues-put}
use bachi_coin.Exec.{Result, ok, err}
use bachi_coin.Admission.{Formats}
use bachi_coin.Tx.{Tx}
use bachi_coin.Mempool.{Pool, submit_tx, has_hash}
use bachi_coin.Mempool.Queue.{IsWellFormed}
use bachi_coin.Mempool.Submit.{submit_tx-IsWellFormed}
use bachi_coin.Mempool.Cleanup.{remove_transaction-IsWellFormed}
use bachi_coin.Mempool.Expiry.{cleanup_expired-IsWellFormed}
use bachi_coin.Network.{
  Net, Rules, submit, receive, after_submit, broadcast_tx_to_network, validate_peer_transaction,
}
use bachi_coin.Network.Gossip.{
  Delivery, deliver, Step, delivered, submitted, removed, cleaned, Reach, here, next,
}

abbrev pub AllWell : Net → Type 0
AllWell n = AllValues IsWellFormed n.pools

pub pools-broadcast :
    (f : Formats) (node : Key) (tx : Tx) (n : Net)
    → (broadcast_tx_to_network f node tx n).pools ≡ n.pools
unfolding broadcast_tx_to_network
pools-broadcast f node tx n = elim (Bool-cases (length (validate_peer_transaction f tx) == 0)) [
  | inl e ↦ rw e refl
  | inr e ↦ rw e refl
]

module _ (rules : Rules) where
  pub pools-after_submit :
      (node : Key) (tx : Tx) (y : Result Key × Pool) (n : Net)
      → (after_submit rules node tx y n).pools ≡ put node y.1 n.pools
  unfolding after_submit
  pools-after_submit node tx (ok _, p) n =
      pools-broadcast rules.formats node tx (record n { pools = put node p n.pools })
  pools-after_submit node tx (err _, p) n = refl

  after_submit-AllWell :
      (now : ℕ) (node : Key) (tx : Tx) (p : Pool) (n : Net)
      → AllWell n
      → get node n.pools ≡ some p
      → AllWell (
          after_submit rules node tx
            (submit_tx rules.validator now (rules.canonical_nonce node) tx p)
            n)
  after_submit-AllWell now node tx p n h e =
      let y = submit_tx rules.validator now (rules.canonical_nonce node) tx p in
      rw (pools-after_submit node tx y n) (
        AllValues-put IsWellFormed node y.1 n.pools h (
          submit_tx-IsWellFormed rules.validator now (rules.canonical_nonce node) tx p
            (AllValues-get IsWellFormed node p n.pools h e)))

  submit-AllWell :
      (now : ℕ) (node : Key) (tx : Tx) (n : Net) → AllWell n → AllWell (submit rules now node tx n)
  unfolding submit
  submit-AllWell now node tx n h = elim (Option-cases (get node n.pools)) [
    | inl e ↦ rw e h
    | inr (p, e) ↦ rw e (after_submit-AllWell now node tx p n h e)
  ]

  receive-AllWell :
      (now : ℕ) (node : Key) (tx : Tx) (n : Net) → AllWell n → AllWell (receive rules now node tx n)
  unfolding receive
  receive-AllWell now node tx n h = elim (Option-cases (get node n.pools)) [
    | inl e ↦ rw e h
    | inr (p, e) ↦ elim (Bool-cases (any_of (has_hash tx.tx_hash) p.tx_queue)) [
      | inl known ↦ rw (e, known) h
      | inr new ↦ rw (e, new) (after_submit-AllWell now node tx p n h e)
    ]
  ]

  pub Delivery-AllWell : {n n' : Net} → Delivery rules n n' → AllWell n → AllWell n'
  Delivery-AllWell {n} (deliver now node tx before after e) h =
      receive-AllWell now node tx (record n { tasks = before ++ after }) h

  Step-AllWell : {n n' : Net} → Step rules n n' → AllWell n → AllWell n'
  Step-AllWell (delivered d) h = Delivery-AllWell d h
  Step-AllWell {n} (submitted now node tx) h = submit-AllWell now node tx n h
  Step-AllWell {n} (removed node hash p e) h =
      AllValues-put IsWellFormed node _ n.pools h
        (remove_transaction-IsWellFormed hash p (AllValues-get IsWellFormed node p n.pools h e)).0
  Step-AllWell {n} (cleaned now node p e) h =
      AllValues-put IsWellFormed node _ n.pools h
        (cleanup_expired-IsWellFormed now p (AllValues-get IsWellFormed node p n.pools h e)).0

  -- In every run of a network from well-formed mempools, whatever clients submit and in whatever
  -- order the waiting tasks run, with removals and cleanups at any time, every node's mempool is
  -- well-formed.
  pub Reach-AllWell : {n n' : Net} → Reach rules n n' → AllWell n → AllWell n'
  Reach-AllWell here h = h
  Reach-AllWell (next r s) h = Step-AllWell s (Reach-AllWell r h)
