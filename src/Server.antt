-- ===== src/Server.antt =====
-- The server package: requests of clients, answered from the store or by a proposal.
pub mod Request
pub mod Shared
pub mod Propose
pub mod Handlers
pub mod Getdir
pub mod Transactions
pub mod Watch
mod Tests
