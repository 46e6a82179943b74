-- ===== src/Server.antt =====
-- apps/api/cmd/audit-zip: the server that puts the audit export and the invoices together.
pub mod Cors
pub mod Routes
pub mod Storage
pub mod Download
pub mod Refusals
pub mod Tests
