-- ===== src/Paginate.antt =====
-- internal/parser/paginate.go, and the sort specifications of internal/ast/ast.go: the specification
-- of a paginated query, and the clauses of its variants.
pub mod Spec
pub mod Check
pub mod Predicate
pub mod Meaning
pub mod After
pub mod Keyset
pub mod Sound
mod Tests
