-- ===== src/Monitor.antt =====
-- The background loops of internal/api: the follower of the journal for on-access detections, and
-- the watch over the age of the signatures.
pub mod Tailer
pub mod Freshness
pub mod Signatures
pub mod Detection
mod Tests
