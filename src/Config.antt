-- ===== src/Config.antt =====
-- The configuration (src/config).
pub mod Env
pub mod Values
