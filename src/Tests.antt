-- ===== src/Tests.antt =====
-- The theorems at concrete inputs, on the in-memory platform.
pub mod Data
pub mod Tasks
pub mod Reads
pub mod Policy
pub mod Users
pub mod Projects
pub mod Reports
pub mod Processor
pub mod Auth
pub mod Accounts
pub mod Cookies
pub mod Events
pub mod Errors
pub mod Swagger
pub mod Config
pub mod Sessions
