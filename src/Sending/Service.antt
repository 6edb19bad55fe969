-- ===== src/Sending/Service.antt =====
-- `SendingService` of backend/app/modules/sending/service.py, in the order of its calls.
pub mod Helpers
pub mod Finalize
pub mod Credentials
pub mod Attachments
pub mod Delivery
pub mod Authorization
pub mod Execute
pub mod Held
pub mod Invoked
pub mod Claimed
pub mod Gated
pub mod Safety
pub mod Recorded
pub mod Committed
pub mod StorageDown
pub mod Duplicate
pub mod HandedBack
