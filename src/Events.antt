-- ===== src/Events.antt =====
-- The websocket gateway (src/modules/events).
pub mod Server
pub mod Gateway
pub mod Admission
pub mod Privacy
pub mod Reports
