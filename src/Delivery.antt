-- ===== src/Delivery.antt =====
-- The delivery of messages, packages/delivery-engine/src: when one is due, and whether it may arrive.
pub mod Materialize
pub mod Gate
pub mod Schedule
pub mod Deferral
pub mod Timely
mod Tests
