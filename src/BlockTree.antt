-- ===== src/BlockTree.antt =====
-- src/blocktree.rs: the chain of headers and the mining of blocks.
pub mod Types
pub mod Hash
pub mod Mining
pub mod Reads
pub mod View
pub mod Contract
pub mod Shown
pub mod Refinement
pub mod Added
pub mod Links
pub mod Mined
pub mod Miner
pub mod Ticking
pub mod Opened
pub mod Restarted
pub mod Chain
