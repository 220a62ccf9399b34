-- ===== src/Errors.antt =====
-- The replies to requests that fail (src/common/filters).
pub mod Filter
pub mod Replies
