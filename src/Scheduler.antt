-- ===== src/Scheduler.antt =====
-- The scheduler of backend/app/modules/scheduler/: it claims due messages, writes the work of the
-- outbox, and publishes it to the send queue.
pub mod Store
pub mod Claim
pub mod Key
pub mod LateTask
pub mod Outbox
pub mod Publisher
pub mod Selection
mod Tests
