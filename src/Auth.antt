-- ===== src/Auth.antt =====
-- apps/api/internal/auth: API keys, their store, and the HTTP middleware and handlers on them.
pub mod Domain
pub mod Settings
pub mod Scopes
pub mod Argon2
pub mod Hash
pub mod Store
pub mod RateLimiter
pub mod Middleware
pub mod Context
pub mod Audit
pub mod Handler
pub mod Tests
