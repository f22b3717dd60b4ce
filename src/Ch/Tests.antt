-- ===== src/Ch/Tests.antt =====
-- Runs of the ClickHouse functions, and the theorems about them at concrete inputs.
mod Parsing
mod Splitting
mod Scanning
mod Inserting
