-- ===== src/Organizations.antt =====
-- The organizations module (src/modules/organizations).
pub mod Service
pub mod Laws
