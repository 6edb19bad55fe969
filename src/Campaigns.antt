-- ===== src/Campaigns.antt =====
-- When the messages of a campaign become due: backend/app/modules/campaigns/.
pub mod Scheduling
pub mod Pacing
pub mod Progression
mod Tests
