-- ===== src/Tests.antt =====
-- Concrete runs of the modelled code, and the theorems applied to them.
mod Balances
mod Pool
mod Blocks
mod Consensus
mod Files
mod Nodes
mod Slots
mod Providers
mod Txs
mod Postprocess
mod Network
mod Roots
mod Submission
