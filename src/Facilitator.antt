-- ===== src/Facilitator.antt =====
-- The facilitator: its error codes (src/facilitators).
pub mod Client
pub mod Errors
pub mod EasyNet
pub mod Processor
