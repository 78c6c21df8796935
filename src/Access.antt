-- ===== src/Access.antt =====
-- Who may call which API route: sessions (server/utils/session-auth.ts), role rules
-- (server/utils/api-rbac.ts), and the middlewares that stand before every handler
-- (server/middleware).
pub mod Pattern
pub mod Rbac
pub mod Session
pub mod UriComponent
pub mod Middleware
pub mod Prefix
mod Tests
