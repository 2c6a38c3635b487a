-- ===== src/Admin.antt =====
-- src/admin: the admin client and its data. NewTopic, NewPartitions and Config have the classes that
-- callers build, Operations what the methods answer, Client the client with its calls in flight.
pub mod NewTopic
pub mod NewPartitions
pub mod Config
pub mod Operations
pub mod Client
