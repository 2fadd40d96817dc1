-- ===== src/Network/Settles.antt =====
-- The spreading of transactions comes to rest: each delivery uses up a waiting task or a free place
-- in a mempool.
use bachi_coin.Prelude.{
  ℕ, suc, ◌+◌, ◌-◌, ◌*◌, ◌≤◌, ◌<◌, ◌≡◌, refl, ap, sym, ◌∙◌, some, List, [], ◌∷◌, ◌++◌, arith,
  Bool-cases, Option-cases, inl, inr, length, any_of, length-append, length-keep, ◌==◌, not,
}
use bachi_coin.Dict.{Key, Dict, get, put, AllValues-get}
use bachi_coin.Tx.{Tx}
use bachi_coin.Admission.{Formats, max_pool_size}
use bachi_coin.Mempool.{Pool, has_hash, persist_state, add_to_queue, create_queue_entry}
use bachi_coin.Mempool.Queue.{IsWellFormed}
use bachi_coin.Mempool.Submit.{submit_tx-cases, accepted}
use bachi_coin.Network.{
  Net, Rules, others, receive, after_submit, broadcast_tx_to_network, validate_peer_transaction,
}
use bachi_coin.Network.Gossip.{Delivery, deliver, Deliveries, idle, more}
use bachi_coin.Network.Sound.{AllWell, Delivery-AllWell, pools-broadcast}
use bachi_coin.Network.Delivered.{keys, keys-put, handed, tasks-broadcast}

-- The free places of all mempools.
abbrev room : Pool → ℕ
room p = max_pool_size - length p.tx_queue

abbrev free : Dict Pool → ℕ
free [] = 0
free ((_, p) ∷ d) = room p + free d

-- A delivery brings at most one task for each node, and takes a free place for them.
abbrev pub weight : Net → ℕ
weight n = length n.tasks + length n.pools * free n.pools

free-put :
    (k : Key) (p q : Pool) (d : Dict Pool)
    → get k d ≡ some p
    → free (put k q d) + room p ≡ free d + room q
free-put k p q [] e = cc
free-put k p q ((j, x) ∷ d) e = ground (arith, free-put k p q d)

length-keys {ℓ} : {V : Type ℓ} (d : Dict V) → length (keys d) ≡ length d
length-keys [] = refl
length-keys (x ∷ d) = ap suc (length-keys d)

length-put {ℓ} :
    {V : Type ℓ} (k : Key) (v w : V) (d : Dict V) → get k d ≡ some w → length (put k v d) ≡ length d
length-put k v w d e =
    sym (length-keys (put k v d)) ∙ ap length (keys-put k v w d e) ∙ length-keys d

length-handed : (tx : Tx) (ks : List Key) → length (handed tx ks) ≡ length ks
length-handed tx [] = refl
length-handed tx (k ∷ ks) = ap suc (length-handed tx ks)

length-others : (node : Key) (d : Dict Pool) → length (others node d) ≤ length d
length-others node d =
    omega (arith, length-keep (λ peer. not (peer == node)) (keys d), length-keys d)

length-broadcast :
    (f : Formats) (node : Key) (tx : Tx) (n : Net)
    → length (broadcast_tx_to_network f node tx n).tasks ≤ length n.tasks + length n.pools
length-broadcast f node tx n = elim (Bool-cases (length (validate_peer_transaction f tx) == 0)) [
  | inl e ↦
      rw (tasks-broadcast f node tx n, e)
        (omega (
          arith,
          length-append n.tasks (handed tx (others node n.pools)),
          length-handed tx (others node n.pools),
          length-others node n.pools,
        ))
  | inr e ↦ rw (tasks-broadcast f node tx n, e) (omega arith)
]

length-accepted :
    (now : ℕ) (tx : Tx) (p : Pool) → length (accepted now tx p).tx_queue ≡ suc (length p.tx_queue)
unfolding persist_state add_to_queue
length-accepted now tx p = omega (arith, length-append p.tx_queue (create_queue_entry now tx ∷ []))

-- The arithmetic of an accepted transaction.
falls : (t t' c f f' : ℕ) → t' ≤ t + c → f' + 1 ≡ f → t' + c * f' ≤ t + c * f
falls t t' c f f' h e = grind arith

module _ (rules : Rules) where
  refused-le :
      (node : Key) (p : Pool) (n : Net)
      → get node n.pools ≡ some p
      → weight (record n { pools = put node p n.pools }) ≤ weight n
  refused-le node p n e =
      let same : free (put node p n.pools) ≡ free n.pools =
        omega (arith, free-put node p p n.pools e) in
      rw (length-put node p p n.pools e, same) (omega arith)

  accepted-le :
      (now : ℕ) (node : Key) (tx : Tx) (p : Pool) (n : Net)
      → get node n.pools ≡ some p
      → length p.tx_queue < max_pool_size
      → weight (
          broadcast_tx_to_network rules.formats node tx
            (record n { pools = put node (accepted now tx p) n.pools }))
        ≤ weight n
  accepted-le now node tx p n e space =
      let q = accepted now tx p in
      let n' : Net = record n { pools = put node q n.pools } in
      rw (pools-broadcast rules.formats node tx n', length-put node q p n.pools e)
        (falls (length n.tasks) (length (broadcast_tx_to_network rules.formats node tx n').tasks)
          (length n.pools) (free n.pools) (free (put node q n.pools))
          (omega (arith, length-broadcast rules.formats node tx n', length-put node q p n.pools e))
          (omega (arith, free-put node p q n.pools e, length-accepted now tx p)))

  receive-le :
      (now : ℕ) (node : Key) (tx : Tx) (n : Net)
      → AllWell n
      → weight (receive rules now node tx n) ≤ weight n
  unfolding receive after_submit
  receive-le now node tx n h = elim (Option-cases (get node n.pools)) [
    | inl e ↦ rw e (omega arith)
    | inr (p, e) ↦ elim (Bool-cases (any_of (has_hash tx.tx_hash) p.tx_queue)) [
      | inl known ↦ rw (e, known) (omega arith)
      | inr new ↦
          let well = AllValues-get IsWellFormed node p n.pools h e in
          elim (submit_tx-cases rules.validator now (rules.canonical_nonce node) tx p well.fresh) [
            | inl (x, r) ↦ rw (e, new, r) (refused-le node p n e)
            | inr (admitted, r) ↦ rw (e, new, r) (accepted-le now node tx p n e admitted.room)
          ]
    ]
  ]

  Delivery-lt : {n n' : Net} → Delivery rules n n' → AllWell n → suc (weight n') ≤ weight n
  Delivery-lt {n} (deliver now node tx before after e) h =
      let n0 : Net = record n { tasks = before ++ after } in
      omega (
        arith,
        receive-le now node tx n0 h,
        ap length e,
        length-append before ((node, tx) ∷ after),
        length-append before after,
      )

  Deliveries-AllWell : {n n' : Net} {k : ℕ} → Deliveries rules n k n' → AllWell n → AllWell n'
  Deliveries-AllWell idle h = h
  Deliveries-AllWell (more r d) h = Delivery-AllWell rules d (Deliveries-AllWell r h)

  -- From well-formed mempools, deliveries alone come to an end, in whatever order the tasks run:
  -- their number and what is left together never exceed the tasks that wait at first plus the free
  -- places of all mempools, counted once for each node.
  pub Deliveries-le :
      {n n' : Net} {k : ℕ} → Deliveries rules n k n' → AllWell n → k + weight n' ≤ weight n
  Deliveries-le idle h = omega arith
  Deliveries-le (more r d) h =
      omega (arith, Deliveries-le r h, Delivery-lt d (Deliveries-AllWell r h))
