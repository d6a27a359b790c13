-- ===== src/Db/EasyNet.antt =====
-- The test network's ledger (src/db/EasyNetDb.cpp).
pub mod Tables
pub mod Transferring
pub mod Operations
pub mod Attempts
pub mod Rows
pub mod Balances
pub mod Transfer
pub mod Conservation
pub mod Failures
pub mod Funding
