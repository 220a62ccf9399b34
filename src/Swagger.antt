-- ===== src/Swagger.antt =====
-- The gate in front of the API's documentation (src/swagger).
pub mod Setup
pub mod Header
pub mod Gate
