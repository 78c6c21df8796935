-- ===== src/Cache.antt =====
-- server/utils/server-cache.ts: the server's cache with in-flight deduplication and stale values on
-- failure. `Defs` has the operations on the two module-level maps, `Replies` says what a caller
-- gets, and `Flights` follows the promises that are in flight.
pub mod Defs
pub mod Replies
pub mod Flights
mod Tests
