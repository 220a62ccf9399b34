-- ===== src/Platform.antt =====
-- The third-party services that the program calls, and what their documentation promises.
mod Types
mod Matching
mod Rows
pub mod Laws
pub mod Frame
pub use Types.*
pub use Matching.*
pub use Rows.*
