-- ===== src/Vibemarket.antt =====
-- The market of src/vibemarket.
pub mod Words
pub mod Math
pub mod Maps
pub mod Market
pub mod Liquidity
pub mod Swaps
pub mod Trading
