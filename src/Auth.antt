-- ===== src/Auth.antt =====
-- The auth module (src/modules/auth).
pub mod Service
pub mod Accounts
pub mod Tokens
pub mod Laws
pub mod Opening
pub mod Login
pub mod Account
pub mod Register
pub mod Bearer
pub mod Controller
pub mod Handlers
pub mod Cookies
pub mod Sessions
pub mod Covers
pub mod Refinement
