-- ===== src/Scst/Conf.antt =====
-- The text of scst.conf: its reader (server/utils/scst-conf-parser.ts) and its writer
-- (serializeScstConfig of server/utils/scst-config-writer.ts).
pub mod Words
pub mod Edits
pub mod Parser
pub mod Printer
pub mod Phrases
pub mod Digits
pub mod Lines
pub mod Reads
pub mod Printable
pub mod RoundTrip
pub mod Safe
pub mod Lost
mod Tests
