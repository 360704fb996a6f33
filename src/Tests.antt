-- ===== src/Tests.antt =====
-- Concrete inputs: each theorem applied where its hypotheses hold, and runs of the program.
pub mod Memory
pub mod Chains
pub mod ChainTheorems
pub mod Pools
pub mod Syncs
pub mod Managers
pub mod Nets
pub mod Nodes
pub mod Networks
pub mod Pooled
pub mod Served
pub mod Clients
pub mod Mains
pub mod Behind
pub mod Clusters
pub mod Servers
pub mod RpcClients
pub mod Queries
pub mod Gossips
