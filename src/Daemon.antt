-- ===== src/Daemon.antt =====
-- Package daemon: the directory of attached sessions, the messages, and what the daemon does with
-- those of a connection.
pub mod Sessions
pub mod Protocol
pub mod Store
pub mod Peers
pub mod Server
pub mod Remote
mod Tests
mod ServerTests
mod ClientTests
