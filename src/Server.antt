-- ===== src/Server.antt =====
-- src/x402_server: the handler that proxygen calls.
pub mod Handler
