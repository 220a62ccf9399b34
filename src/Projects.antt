-- ===== src/Projects.antt =====
-- The projects module (src/modules/projects).
pub mod Service
pub mod Controller
pub mod Reach
pub mod Unique
pub mod Names
