-- ===== src/Ssh.antt =====
-- One SSH connection to a node: server/utils/ssh-session-manager.ts.
pub mod Manager
pub mod Runs
pub mod Orderly
pub mod Channels
pub mod Destroyed
mod Tests
