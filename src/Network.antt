-- ===== src/Network.antt =====
-- The gossip of transactions between the nodes of one process: `LoopbackAdapter` of
-- src/BachiCoin/lib_network/loopback_adapter.py, `NetNode` of net_node.py, and the broadcasting of
-- `submit_tx` in src/BachiCoin/lib_mempool/mempool_index_service.py with the check of
-- mempool_validation.py. A task that a handler creates runs later: the tasks that wait are part of
-- the state, and any of them may be the next. A send suspends nowhere, so a call is one step.
pub mod Gossip
pub mod Sound
pub mod Settles
pub mod Delivered
use bachi_coin.Prelude.{
  ℕ, not, Option, none, some, List, [], ◌∷◌, ◌++◌, map, keep, any_of, length, ◌==◌, if◌then◌else◌,
}
use bachi_coin.Dict.{Key, Dict, get, put}
use bachi_coin.Exec.{Result, ok, err}
use bachi_coin.Tx.{Tx}
use bachi_coin.Admission.{Formats, Rejection, PoolState, AccountState, validate_mempool_transaction}
use bachi_coin.Mempool.{Pool, submit_tx, has_hash}

pub data MessageType : Type 0 where
  handshake ping pong get_peers peers get_block block transaction new_node_announce : MessageType
  new_block : MessageType

-- A base message, without its magic number, version, time and trace.
pub record NetMessage : Type 0 where
  pub type : MessageType
  pub payload : Tx

-- A transaction that a node's mempool has been handed.
abbrev pub Task : Type 0
Task = Key × Tx

-- The registry of adapters, with the mempool behind each, and the tasks that wait.
pub record Net : Type 0 where
  pub pools : Dict Pool
  pub tasks : List Task

-- `handle_incoming_message` of a node: only a transaction makes a task.
unfoldable pub handle_incoming_message : Key → NetMessage → List Task → List Task
handle_incoming_message node msg tasks = elim msg.type [
  | transaction ↦ tasks ++ (node, msg.payload) ∷ []
  | _ ↦ tasks
]

-- `send` of the adapter: a receiver that is not registered gets nothing.
unfoldable pub send : Dict Pool → Key → NetMessage → List Task → List Task
unfolding handle_incoming_message
send registry receiver msg tasks = elim (get receiver registry) [
  | none ↦ tasks
  | some _ ↦ handle_incoming_message receiver msg tasks
]

abbrev pub others : Key → Dict Pool → List Key
others sender registry = keep (λ peer. not (peer == sender)) (map (λ i. i.0) registry)

unfoldable pub send_each : Dict Pool → NetMessage → List Key → List Task → List Task
unfolding send
send_each registry msg [] tasks = tasks
send_each registry msg (peer ∷ rest) tasks =
    send_each registry msg rest (send registry peer msg tasks)

-- `broadcast` of the adapter
unfoldable pub broadcast : Dict Pool → Key → NetMessage → List Task → List Task
unfolding send_each
broadcast registry sender msg tasks = send_each registry msg (others sender registry) tasks

-- `validate_peer_transaction`: the rules of the mempool, for an account that is empty.
unfoldable pub validate_peer_transaction : Formats → Tx → List Rejection
validate_peer_transaction f tx =
    validate_mempool_transaction f tx (record { total_size = 0; account_pending = λ _. 0 })
      (record { canonical_nonce = none; next_nonce = some 0; pending_nonces = [] })

-- `_broadcast_tx_to_network`: a transaction that fails the check is not sent, and nothing is raised.
unfoldable pub broadcast_tx_to_network : Formats → Key → Tx → Net → Net
unfolding validate_peer_transaction broadcast
broadcast_tx_to_network f node tx n =
    if length (validate_peer_transaction f tx) == 0
    then record n {
      tasks = broadcast n.pools node (record { type = transaction; payload = tx }) n.tasks;
    }
    else n

-- The mempools' settings: the validator, the canonical nonces that each node knows, the formats.
pub record Rules : Type 0 where
  pub formats : Formats
  pub validator : Tx → PoolState → AccountState → List Rejection
  pub canonical_nonce : Key → Key → ℕ

module _ (rules : Rules) where
  unfoldable pub after_submit : Key → Tx → Result Key × Pool → Net → Net
  unfolding broadcast_tx_to_network
  after_submit node tx (ok _, p) n =
      broadcast_tx_to_network rules.formats node tx (record n { pools = put node p n.pools })
  after_submit node tx (err _, p) n = record n { pools = put node p n.pools }

  abbrev submit_at : ℕ → Key → Tx → Option Pool → Net → Net
  submit_at now node tx none n = n
  submit_at now node tx (some p) n =
      after_submit node tx (submit_tx rules.validator now (rules.canonical_nonce node) tx p) n

  -- `submit_tx` with its broadcast, at a node
  unfoldable pub submit : ℕ → Key → Tx → Net → Net
  unfolding after_submit
  submit now node tx n = submit_at now node tx (get node n.pools) n

  abbrev receive_at : ℕ → Key → Tx → Option Pool → Net → Net
  receive_at now node tx none n = n
  receive_at now node tx (some p) n =
      if any_of (has_hash tx.tx_hash) p.tx_queue
      then n
      else after_submit node tx (submit_tx rules.validator now (rules.canonical_nonce node) tx p) n

  -- `handle_network_tx` with the broadcast of its submission, at a node
  unfoldable pub receive : ℕ → Key → Tx → Net → Net
  unfolding after_submit
  receive now node tx n = receive_at now node tx (get node n.pools) n
