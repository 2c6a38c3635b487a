-- ===== src/NetworkClient.antt =====
-- src/network/NetworkClient.ts: the client of the cluster, over connections to its brokers.
pub mod Defs
pub mod Action
pub mod Refresh
pub mod Lifecycle
pub mod Requests
pub mod Nodes
pub mod Rounds
pub mod Keeping
pub mod Open
pub mod Shut
pub mod Invariant
pub mod Down
pub mod Closing
pub mod Overlap
pub mod Brokers
