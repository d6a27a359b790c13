-- ===== src/Payment.antt =====
-- Payments: what the client signs and sends, its checks, and its settlement (src/payment).
pub mod Payload
pub mod Messages
pub mod Manager
