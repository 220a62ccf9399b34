-- ===== src/Users.antt =====
-- The users module (src/modules/users).
pub mod Policy
pub mod Service
pub mod Controller
pub mod Laws
pub mod Reach
