-- ===== src/Lib.antt =====
-- BachiCoin: a proof-of-stake ledger in Python, modelled by hand from its source.
--
-- The program keeps users and their wallets, takes signed transactions into a mempool, collects
-- them in blocks, has validators attest to the blocks and finalizes epochs, and applies each block
-- to the balances. Every part is a service over a key-value store that holds records and an index.
--
-- Parts and files:
-- * User, Wallet: `UserIndexService` of src/BachiCoin/lib_user/user_index_service.py and
--   `WalletIndexService` of src/BachiCoin/lib_wallet/wallet_index_service.py, with
--   wallet_helper.py. A store is a record of two dicts, the records and the index.
-- * Tx, Block: the data of src/BachiCoin/lib_transaction/tx_config.py and
--   src/BachiCoin/lib_blockchain/blockchain_config.py.
-- * TxCheck, TxIndex: the rules of src/BachiCoin/lib_transaction/tx_validation.py, and
--   `TxIndexService` of tx_index_service.py, which validates by them before it saves.
-- * Signer, Submission: src/BachiCoin/lib_transaction/tx_signer.py and tx_submittal.py. A transaction is
--   made from a template, hashed, signed and saved (TxIndex), and goes to Mempool with the nonce of
--   its sender. What other tasks do during a wait is a parameter.
-- * Ledger, Ledger/Process: `update_block_state` of
--   src/BachiCoin/lib_postprocess/postprocess_state.py with src/BachiCoin/lib_nonce/nonce.py. The
--   loop over the transactions is `process_txs`, its branches are `dispatch`, and the local
--   variables are the state `Run`. It reads and writes the wallets and users of all nodes.
-- * Admission, Mempool: src/BachiCoin/lib_mempool (mempool_config.py, mempool_index_service.py,
--   mempool_helper.py). The mempool takes its validator as a parameter, as the service does.
-- * Fee, Chain, BlockIndex: src/BachiCoin/lib_blockchain (blockchain_config.py, blockchain.py,
--   blockchain_index_service.py, blockchain_helper.py).
-- * Validator, Attestor, Finalizer: the services and helpers of src/BachiCoin/lib_validator,
--   lib_attestor and lib_finalizer. The finalizer reads the attestations and the registry,
--   and updates blocks through BlockIndex; a raise keeps what was written before it.
-- * Proposer, Candidate: src/BachiCoin/lib_proposer (proposer_index_service.py, proposer_helper.py,
--   proposer_validation.py). A candidate takes the pending transactions of the mempool; it is
--   checked by TxCheck and, when the block service creates it, by BlockCheck
--   (src/BachiCoin/lib_blockchain/blockchain_validation.py).
-- * Node, Consensus: `NodeContext` of src/BachiCoin/lib_crossmodule/node_context.py and
--   src/BachiCoin/lib_consensus/consensus.py. The state of the loop is that of all its services; a
--   slot is the sequence of their operations, in which a raise keeps what was written before it.
-- * Ledger, Postprocess: `run_postprocess` of src/BachiCoin/lib_postprocess/postprocess_blocks.py,
--   which applies Ledger to the unprocessed blocks of the best chain.
-- * Mempool, Network: the gossip of transactions, by src/BachiCoin/lib_network/loopback_adapter.py
--   and net_node.py. A run is a sequence of steps, of clients and of tasks in any order.
-- * Block, Roots: src/BachiCoin/lib_blockchain/blockchain_merkle_verkle.py.
-- * Provider, Sqlite: the promise of a storage provider (src/BachiCoin/lib_storage/base_provider.py)
--   as a map, and the provider of src/BachiCoin/lib_storage/sqlite_provider.py.
-- * Storage, Nonce: `FileStorageProvider` of src/BachiCoin/lib_storage/file_provider.py and
--   `calculate_next_nonce` of src/BachiCoin/lib_nonce/nonce.py.
-- * Prelude, Dict, Exec: shared names, signed integers, dicts in insertion order, and calls that
--   change a state and may raise. Tests: concrete runs.
--
-- Conventions: a text is a number, by some injective numbering in which 0 is the empty text, since
-- these parts only compare texts; `ledger_system` and `genesis_parent` name two of them. A coin
-- amount is an integer in units of the eighth decimal; a fee per gas is in wei. The trip of a
-- decimal through a float is the parameter `Rounding`, which is exact up to a limit where a theorem
-- says so. Storage is reliable and has its indexes from the start, the lock of a service is held
-- for each whole call, and the clock is an argument. Timestamps are left out.
--
-- Fuel: the walks along parent hashes (`walk`, `walk_back`, `unprocessed`) take fuel, since the
-- source's loops end only where the store has no cycle; two rounds more than the rank of the start
-- are enough, in an order that puts parents first.
--
-- What is not in the repository is a parameter: the regular expressions (`Formats`, `TxFormats`),
-- the hash of a block, the root of its transactions and their format (`Host`, with `IsHashing` where a theorem needs that a hash has the
-- format of one), the hash of a text (`hash_data`), the signatures of the curve
-- (`Crypto`, which stands for the library under the wrappers of
-- src/BachiCoin/lib_crypto/crypto_utils.py, with `IsCurve` for what is documented of it), and the statements of SQLite (`Table`).
--
-- Not modelled: cryptography, sockets, set-up scripts, schema tables, search and statistics.
pub mod Prelude
pub mod Dict
pub mod Exec
pub mod User
pub mod Wallet
pub mod Tx
pub mod TxCheck
pub mod TxIndex
pub mod Block
pub mod Ledger
pub mod Admission
pub mod Mempool
pub mod Fee
pub mod Chain
pub mod BlockIndex
pub mod BlockCheck
pub mod Validator
pub mod Proposer
pub mod Attestor
pub mod Finalizer
pub mod Node
pub mod Candidate
pub mod Consensus
pub mod Storage
pub mod Provider
pub mod Sqlite
pub mod Nonce
pub mod Signer
pub mod Submission
pub mod Postprocess
pub mod Network
pub mod Roots
pub mod Tests
