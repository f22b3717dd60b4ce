-- ===== src/Parser.antt =====
-- internal/parser: the parser of query files.
pub mod Prepare
pub mod Numbering
pub mod Splice
pub mod Bounds
pub mod Pragmas
pub mod State
pub mod Annotation
pub mod Query
pub mod File
mod Tests
