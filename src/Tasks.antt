-- ===== src/Tasks.antt =====
-- The tasks module (src/modules/tasks).
pub mod Dto
pub mod Policy
pub mod Cache
pub mod Objects
pub mod Service
pub mod Controller
pub mod Tenancy
pub mod Reads
pub mod Writes
pub mod Overdue
pub mod Cron
