-- ===== src/Ch.antt =====
-- internal/ch: the ClickHouse side of the generator.
pub mod Statements
pub mod Types
pub mod Zero
pub mod Parse
pub mod Params
pub mod Insert
mod Tests
