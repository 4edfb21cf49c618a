-- ===== src/Connection.antt =====
-- v2/connection.go: the choice of versions, and the waiters of a connection.
pub mod Versions
pub mod Ids
pub mod Waiters
