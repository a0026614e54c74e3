-- ===== src/Database.antt =====
-- Access to the global node, a Primary and a Replica (src/database).
pub mod ConnectionErrors
pub mod State
pub mod Router
pub mod Session
pub mod Replication
