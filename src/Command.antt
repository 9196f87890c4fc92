-- ===== src/Command.antt =====
-- Package command: the command trees, how a typed line is resolved against them, and the levels
-- that a session moves between.
pub mod Tree
pub mod Args
pub mod Resolve
pub mod Context
pub mod Stack
pub mod Roles
pub mod Level
pub mod Replay
pub mod Reload
pub mod Registry
pub mod Loader
pub mod Verify
pub mod Help
pub mod Prune
pub mod Build
pub mod Literal
mod Tests
mod LevelTests
mod TreeTests
mod HelpTests
