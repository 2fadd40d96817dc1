-- ===== src/Network/Gossip.antt =====
-- The steps of a network: what clients, deliveries and the upkeep of the mempools may do, in any
-- order.
use bachi_coin.Prelude.{ℕ, zero, suc, ◌≡◌, some, List, ◌∷◌, ◌++◌}
use bachi_coin.Dict.{Key, get, put}
use bachi_coin.Tx.{Tx}
use bachi_coin.Mempool.{Pool, remove_transaction, cleanup_expired}
use bachi_coin.Network.{Net, Task, Rules, submit, receive}

module _ (rules : Rules) where
  -- One of the waiting tasks runs.
  pub data Delivery (n : Net) : Net → Type 0 where
    deliver :
        (now : ℕ) (node : Key) (tx : Tx) (before after : List Task)
        → n.tasks ≡ before ++ (node, tx) ∷ after
        → Delivery n (receive rules now node tx (record n { tasks = before ++ after }))

  pub data Step (n : Net) : Net → Type 0 where
    delivered : {n' : Net} → Delivery n n' → Step n n'
    submitted : (now : ℕ) (node : Key) (tx : Tx) → Step n (submit rules now node tx n)
    removed :
        (node hash : Key) (p : Pool)
        → get node n.pools ≡ some p
        → Step n (record n { pools = put node (remove_transaction hash p).1 n.pools })
    cleaned :
        (now : ℕ) (node : Key) (p : Pool)
        → get node n.pools ≡ some p
        → Step n (record n { pools = put node (cleanup_expired now p).1 n.pools })

  pub data Reach (n : Net) : Net → Type 0 where
    here : Reach n n
    next : {m m' : Net} → Reach n m → Step m m' → Reach n m'

  -- A number of deliveries in a row.
  pub data Deliveries (n : Net) : ℕ → Net → Type 0 where
    idle : Deliveries n zero n
    more : {k : ℕ} {m m' : Net} → Deliveries n k m → Delivery m m' → Deliveries n (suc k) m'
