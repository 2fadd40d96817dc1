-- ===== src/Network/Delivered.antt =====
-- Who is handed a transaction that a node broadcasts.
use bachi_coin.Prelude.{
  ℕ, ◌≡◌, refl, ap, ◌∙◌, true, not, some, List, [], ◌∷◌, ◌++◌, map, arith, Bool-cases, inl, inr,
  length, keep, All, All-keep, ◌==◌, if◌then◌else◌,
}
use bachi_coin.Dict.{Key, Dict, get, put, contains}
use bachi_coin.Exec.{Result, ok, err}
use bachi_coin.Tx.{Tx}
use bachi_coin.Admission.{Formats}
use bachi_coin.Mempool.{Pool, submit_tx}
use bachi_coin.Network.{
  Net, NetMessage, Task, Rules, MessageType, others, send, send_each, broadcast, submit,
  after_submit, handle_incoming_message, broadcast_tx_to_network, validate_peer_transaction,
}

abbrev pub keys {ℓ} : {V : Type ℓ} → Dict V → List Key
keys d = map (λ i. i.0) d

pub keys-put {ℓ} :
    {V : Type ℓ} (k : Key) (v w : V) (d : Dict V) → get k d ≡ some w → keys (put k v d) ≡ keys d
keys-put k v w [] e = cc
keys-put k v w ((j, x) ∷ d) e = ground (arith, keys-put k v w d)

All-mono {ℓ κ} :
    {A : Type ℓ} (P Q : A → Type κ) (xs : List A) → ((x : A) → P x → Q x) → All P xs → All Q xs
All-mono P Q [] f h = tt
All-mono P Q (x ∷ xs) f h = (f x h.0, All-mono P Q xs f h.1)

contains-cons {ℓ} :
    {V : Type ℓ} (j k : Key) (v : V) (d : Dict V)
    → contains k d ≡ true
    → contains k ((j, v) ∷ d) ≡ true
contains-cons j k v d h = ground (arith, h)

contains-head {ℓ} : {V : Type ℓ} (k : Key) (v : V) (d : Dict V) → contains k ((k, v) ∷ d) ≡ true
contains-head k v d = ground arith

keys-All {ℓ} : {V : Type ℓ} (d : Dict V) → All (λ k. contains k d ≡ true) (keys d)
keys-All [] = tt
keys-All ((j, v) ∷ d) = (
  contains-head j v d,
  All-mono (λ k. contains k d ≡ true) (λ k. contains k ((j, v) ∷ d) ≡ true) (keys d)
      (λ k h. contains-cons j k v d h) (keys-All d),
)

abbrev pub handed : Tx → List Key → List Task
handed tx peers = map (λ peer. (peer, tx)) peers

abbrev tx_message : Tx → NetMessage
tx_message tx = record { type = MessageType.transaction; payload = tx }

append_assoc {ℓ} : {A : Type ℓ} (xs ys zs : List A) → (xs ++ ys) ++ zs ≡ xs ++ (ys ++ zs)
append_assoc [] ys zs = refl
append_assoc (x ∷ xs) ys zs = ap (λ l. x ∷ l) (append_assoc xs ys zs)

append_nil {ℓ} : {A : Type ℓ} (xs : List A) → xs ≡ xs ++ []
append_nil [] = refl
append_nil (x ∷ xs) = ap (λ l. x ∷ l) (append_nil xs)

send-eq :
    (registry : Dict Pool) (peer : Key) (tx : Tx) (tasks : List Task)
    → contains peer registry ≡ true
    → send registry peer (tx_message tx) tasks ≡ tasks ++ (peer, tx) ∷ []
unfolding send handle_incoming_message
send-eq registry peer tx tasks h = ground (arith, h)

send_each-eq :
    (registry : Dict Pool) (tx : Tx) (peers : List Key) (tasks : List Task)
    → All (λ k. contains k registry ≡ true) peers
    → send_each registry (tx_message tx) peers tasks ≡ tasks ++ handed tx peers
unfolding send_each
send_each-eq registry tx [] tasks h = append_nil tasks
send_each-eq registry tx (p ∷ ps) tasks h =
    ap (send_each registry (tx_message tx) ps) (send-eq registry p tx tasks h.0)
    ∙ send_each-eq registry tx ps (tasks ++ (p, tx) ∷ []) h.1
    ∙ append_assoc tasks ((p, tx) ∷ []) (handed tx ps)

pub broadcast-eq :
    (registry : Dict Pool) (sender : Key) (tx : Tx) (tasks : List Task)
    → broadcast registry sender (tx_message tx) tasks ≡ tasks ++ handed tx (others sender registry)
unfolding broadcast
broadcast-eq registry sender tx tasks = send_each-eq registry tx (others sender registry) tasks (
    All-keep (λ k. contains k registry ≡ true) (λ peer. not (peer == sender)) (keys registry)
      (keys-All registry))

-- What a broadcast adds to the waiting tasks, for a transaction that passes the check or does not.
pub tasks-broadcast :
    (f : Formats) (node : Key) (tx : Tx) (n : Net)
    → (broadcast_tx_to_network f node tx n).tasks ≡ (
        if length (validate_peer_transaction f tx) == 0
        then n.tasks ++ handed tx (others node n.pools)
        else n.tasks)
unfolding broadcast_tx_to_network
tasks-broadcast f node tx n = elim (Bool-cases (length (validate_peer_transaction f tx) == 0)) [
  | inl e ↦ rw e (broadcast-eq n.pools node tx n.tasks)
  | inr e ↦ rw e refl
]

module _ (rules : Rules) where
  tasks-after_submit :
      (node : Key) (tx : Tx) (y : Result Key × Pool) (p : Pool) (n : Net) (h : Key)
      → get node n.pools ≡ some p
      → y.0 ≡ ok h
      → (after_submit rules node tx y n).tasks ≡ (
          if length (validate_peer_transaction rules.formats tx) == 0
          then n.tasks ++ handed tx (others node n.pools)
          else n.tasks)
  unfolding after_submit
  tasks-after_submit node tx (ok _, q) p n h e accepted =
      tasks-broadcast rules.formats node tx (record n { pools = put node q n.pools })
      ∙ ap
          (λ ks.
            if length (validate_peer_transaction rules.formats tx) == 0
            then n.tasks ++ handed tx (keep (λ peer. not (peer == node)) ks)
            else n.tasks)
          (keys-put node q p n.pools e)
  tasks-after_submit node tx (err _, q) p n h e accepted = cc

  -- A transaction that a node's mempool accepts is handed to every other registered node exactly
  -- once, in the order of the registry, and not to the node itself, if it passes the check for
  -- peers; otherwise it is handed to nobody.
  pub submit-delivers :
      (now : ℕ) (node : Key) (tx : Tx) (p : Pool) (n : Net) (hash : Key)
      → get node n.pools ≡ some p
      → (submit_tx rules.validator now (rules.canonical_nonce node) tx p).0 ≡ ok hash
      → (submit rules now node tx n).tasks ≡ (
          if length (validate_peer_transaction rules.formats tx) == 0
          then n.tasks ++ handed tx (others node n.pools)
          else n.tasks)
  unfolding submit
  submit-delivers now node tx p n hash e accepted = rw e (
      tasks-after_submit node tx (submit_tx rules.validator now (rules.canonical_nonce node) tx p) p
        n hash e accepted)
