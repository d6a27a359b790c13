-- ===== src/Crypto.antt =====
-- Encodings, amounts, addresses and signed authorizations (src/crypto).
pub mod Encoding
pub mod Values
pub mod Domain
pub mod Keys
