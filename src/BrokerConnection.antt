-- ===== src/BrokerConnection.antt =====
-- src/network/BrokerConnection.ts: one TCP connection to a broker, driven by the events of its
-- socket and of its timers. Every method and every event handler is a function from the connection
-- to an effect: the connection after it, what it does outside in order, and how it ends.
mod Defs
pub mod Socket
pub mod Requests
pub mod Incoming
pub mod Invariant
pub mod Framing
pub mod Settling
pub mod Answers
pub mod Exchange
unfoldable pub use Defs.*
