-- ===== src/Tests.antt =====
-- Concrete runs of the model, and the theorems at concrete arguments.
mod Wire
mod Platform
mod Connection
mod Exchange
mod Runs
mod Cluster
mod Bodies
mod Client
mod Overlap
mod Users
mod Messages
mod Admin
