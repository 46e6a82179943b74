-- ===== src/Pint.antt =====
-- apps/api/internal/pint: invoices, their validation, and their form as UBL.
pub mod Text
pub mod Types
pub mod Validator
pub mod Ubl
pub mod Pdf
pub mod Settings
pub mod Storage
pub mod Api
pub mod Audit
pub mod Service
pub mod Tests
