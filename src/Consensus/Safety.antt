-- ===== src/Consensus/Safety.antt =====
-- What is said at one position of the log: invariants of the nodes, and agreement.
pub mod Grows
pub mod Promises
pub mod Ballots
pub mod Nominations
pub mod Tallies
pub mod Outcomes
pub mod Agreement
pub mod Global
pub mod Invites
pub mod CoordinatorStep
pub mod AcceptorStep
pub mod LearnerStep
pub mod Carries
pub mod Reach
pub mod Handle
pub mod Start
pub mod Schedules
pub mod Rounds
pub mod Learned
