-- ===== src/Messaging.antt =====
-- The video message, packages/messaging/src/pipeline.ts, which joins the authorization, the delivery and
-- the retention.
pub mod Capture
pub mod Retention
mod Tests
