-- ===== src/AuditZip.antt =====
-- apps/api/internal/auditzip: the audit archive jobs, their queue and their HTTP service.
pub mod Types
pub mod JobState
pub mod Storage
pub mod Audit
pub mod RateLimiter
pub mod Validator
pub mod Queue
pub mod Settings
pub mod Wire
pub mod Api
pub mod Service
pub mod Tests
