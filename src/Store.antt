-- ===== src/Store.antt =====
-- The store package: a tree of files and directories that changes by mutations.
pub mod Error
pub mod Path
pub mod Number
pub mod Mutation
pub mod Node
pub mod Event
pub mod Getter
pub mod Glob
pub mod Apply
pub mod Process
mod Tests
