-- ===== src/Memory.antt =====
-- An in-memory platform: tables of rows with distinct ids, and Redis as a function. It stands for
-- no code of the program. It shows that the laws of `Platform.Laws` can be met, and runs tests.
pub mod Table
pub mod Repository
pub mod Kinds
pub mod World
pub mod Sockets
