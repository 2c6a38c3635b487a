-- ===== src/Network.antt =====
-- src/network: what the connections and the client of the network layer share.
pub mod ApiKeys
pub mod Headers
pub mod Protocol
pub mod Responses
pub mod Requests
