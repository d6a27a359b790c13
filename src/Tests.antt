-- ===== src/Tests.antt =====
-- Concrete libraries, and the theorems at concrete inputs.
mod Demo
mod World
mod Values
mod Ledger
mod Paying
mod Serving
mod Trading
mod Asking
mod Signing
mod Configuring
mod Managing
mod Paths
