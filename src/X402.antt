-- ===== src/X402.antt =====
-- src/x402_protocol: the processor of paid and passed-through requests.
pub mod Backend
pub mod Responses
pub mod Host
pub mod Processor
