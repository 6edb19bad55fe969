-- ===== src/Scheduler/Publisher/Backoff.antt =====
-- The backoff after a failed publication.
