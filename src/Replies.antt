-- ===== src/Replies.antt =====
-- Which outbound message an inbound one answers: backend/app/modules/replies/.
pub mod Texts
pub mod Matcher
mod Tests
