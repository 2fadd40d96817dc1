-- ===== src/Node.antt =====
-- The services of a node (src/BachiCoin/lib_crossmodule/node_context.py) that the consensus loop
-- reaches, as one state, and what the loop takes from outside the repository.
use bachi_coin.Prelude.{ℕ, Bool, List, ℤ}
use bachi_coin.Dict.{Key}
use bachi_coin.Exec.{ok, Exec}
use bachi_coin.Tx.{Tx}
use bachi_coin.TxCheck.{TxFormats}
use bachi_coin.Block.{Header}
use bachi_coin.BlockIndex.{BlockStore}
use bachi_coin.Mempool.{Entry, Pool}
use bachi_coin.Validator.{Registry}
use bachi_coin.Attestor.{Duties}
use bachi_coin.Proposer.{Proposals}
use bachi_coin.Finalizer.{Finality, World}

-- The regular expressions, the injected score of the mempool, the hash of a block from the time,
-- the header and the transactions, and the root of transactions, which Roots models as a text.
pub record Host : Type 0 where
  pub tx_formats : TxFormats
  pub score : Entry → ℤ
  pub is_valid_block_hash : Key → Bool
  pub generate_block_hash : ℕ → Header → List Tx → Key
  pub calculate_txs_root : List Tx → Key

pub record Node : Type 0 where
  pub proposals : Proposals
  pub pool : Pool
  pub blocks : BlockStore
  pub registry : Registry
  pub duties : Duties
  pub finality : Finality

-- Calls of one service.
abbrev pub on_proposals {ℓ} : {A : Type ℓ} → (Registry → Exec Proposals A) → Exec Node A
on_proposals call n = let (r, s) = call n.registry n.proposals in (r, record n { proposals = s })

abbrev pub on_pool {ℓ} : {A : Type ℓ} → (Pool → A × Pool) → Exec Node A
on_pool call n = let (a, s) = call n.pool in (ok a, record n { pool = s })

abbrev pub on_blocks {ℓ} : {A : Type ℓ} → Exec BlockStore A → Exec Node A
on_blocks call n = let (r, s) = call n.blocks in (r, record n { blocks = s })

abbrev pub on_duties {ℓ} : {A : Type ℓ} → Exec Duties A → Exec Node A
on_duties call n = let (r, s) = call n.duties in (r, record n { duties = s })

abbrev pub on_world {ℓ} : {A : Type ℓ} → Exec World A → Exec Node A
on_world call n =
    let (r, w) = call (record { finality = n.finality; blocks = n.blocks }) in
    (r, record n { finality = w.finality; blocks = w.blocks })
