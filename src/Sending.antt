-- ===== src/Sending.antt =====
-- The send worker: backend/app/modules/sending.
pub mod RetryPolicy
pub mod Context
pub mod Gates
pub mod Store
pub mod Stored
pub mod Repository
pub mod Session
pub mod Deferral
pub mod Environment
pub mod Service
pub mod Recovery
pub mod Reconciliation
pub mod Sample
mod Tests
