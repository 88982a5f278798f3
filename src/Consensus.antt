-- ===== src/Consensus.antt =====
-- The consensus package: one Paxos instance for each position of the log.
pub mod Message
pub mod Acceptor
pub mod Learner
pub mod Coordinator
pub mod Run
pub mod Manager
pub mod Members
pub mod System
pub mod Safety
mod Tests
