-- ===== src/Shell.antt =====
-- Quoting of words for the remote shell: `shellQuote` of server/utils/lvm-actions.ts and
-- `shellSingleQuoteForRemote` of server/utils/remote-config-paths.ts. `Posix` says how a shell
-- reads a command line, and `Quoting` proves that it reads back the words that were quoted.
pub mod Defs
pub mod Posix
pub mod Quoting
mod Tests
