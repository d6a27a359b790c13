-- ===== src/Db.antt =====
-- The databases (src/db).
pub mod EasyNet
pub mod Payments
