-- ===== src/Ch/Statements.antt =====
-- internal/ch/statements.go. An offset into `sql` is the text from that offset on, and a slice
-- `sql[i:next]` is the text that a function returns beside what follows it.
pub mod Segments
pub mod Split
pub mod Render
use pggen.Prelude.{
  ℕ, zero, suc, Bool, true, false, ◌&&◌, ◌||◌, List, [], ◌∷◌, ◌++◌, Option, none, some, ◌==◌,
  if◌then◌else◌, length,
}
use pggen.Prelude.Result.{Result, ok, err}
use pggen.Prelude.Text.{Text, trim_space}

-- The loop of `skipLiteral`, after the opening quote: what is skipped, and what is left.
unfoldable pub literal_end : ℕ → Text → Text × Text
literal_end quote [] = ([], [])
literal_end quote (c ∷ []) = (c ∷ [], [])
literal_end quote (c ∷ d ∷ s) =
    let (escaped, after) = literal_end quote s in
    let (plain, rest) = literal_end quote (d ∷ s) in
    if c == b'\\'
    then (c ∷ d ∷ escaped, after)
    else if c == quote
    then (c ∷ [], d ∷ s)
    else (c ∷ plain, rest)

abbrev pub is_quote : ℕ → Bool
is_quote c = c == b'\'' || c == b'`' || c == b'"'

-- `skipLiteral(sql, i)`: the literal and what follows it; `none` where the code returns `i`.
unfoldable pub skip_literal : Text → Option (Text × Text)
unfolding literal_end
skip_literal [] = none
skip_literal (quote ∷ s) =
    let (body, rest) = literal_end quote s in
    if is_quote quote then some (quote ∷ body, rest) else none

-- The loops of `skipComment`, after the two bytes that open the comment.
unfoldable pub line_end : Text → Text × Text
line_end [] = ([], [])
line_end (c ∷ s) =
    let (body, rest) = line_end s in if c == b'\n' then ([], c ∷ s) else (c ∷ body, rest)

unfoldable pub block_end : Text → Text × Text
block_end [] = ([], [])
block_end (c ∷ []) = (c ∷ [], [])
block_end (c ∷ d ∷ s) =
    let (body, rest) = block_end (d ∷ s) in
    if c == b'*' && d == b'/' then (c ∷ d ∷ [], s) else (c ∷ body, rest)

-- `skipComment(sql, i)`: the comment and what follows it; `none` where the code returns `i`.
unfoldable pub skip_comment : Text → Option (Text × Text)
unfolding line_end block_end
skip_comment [] = none
skip_comment (c ∷ []) = none
skip_comment (c ∷ d ∷ s) =
    let (line, after_line) = line_end s in
    let (block, after_block) = block_end s in
    if c == b'-' && d == b'-'
    then some (c ∷ d ∷ line, after_line)
    else if c == b'/' && d == b'*'
    then some (c ∷ d ∷ block, after_block)
    else none

-- `flush`, on the statements so far and the text of the builder.
unfoldable pub flush : List Text → Text → List Text
flush stmts sb = elim (trim_space sb) [ [] ↦ stmts | c ∷ stmt ↦ stmts ++ (c ∷ stmt) ∷ [] ]

-- The loop of `SplitStatements`. Each round takes a unit of fuel and at least one byte.
unfoldable pub split_loop : ℕ → Text → Text → List Text → Option (List Text)
split_loop zero sql sb stmts = none
split_loop (suc fuel) [] sb stmts = some (flush stmts sb)
split_loop (suc fuel) (c ∷ s) sb stmts = elim (skip_comment (c ∷ s)) [
  | some (_, rest) ↦ split_loop fuel rest (sb ++ b'\n' ∷ []) stmts
  | none ↦ elim (skip_literal (c ∷ s)) [
    | some (literal, rest) ↦ split_loop fuel rest (sb ++ literal) stmts
    | none ↦ elim (c == b';') [
      | true ↦ split_loop fuel s [] (flush stmts sb)
      | false ↦ split_loop fuel s (sb ++ c ∷ []) stmts
    ]
  ]
]

-- `SplitStatements(sql)`; never `none` (Split).
unfoldable pub split_statements : Text → Option (List Text)
unfolding split_loop skip_comment skip_literal flush trim_space
split_statements sql = split_loop (suc (length sql)) sql [] []

pub data StatementError : Type 0 where
  empty_query : StatementError
  many_statements : ℕ → StatementError

-- The switch of `SingleStatement` on the statements found.
unfoldable pub single : List Text → Result StatementError Text
single [] = err empty_query
single (stmt ∷ []) = ok stmt
single (a ∷ b ∷ stmts) = err (many_statements (suc (suc (length stmts))))

-- `SingleStatement(sql)`.
unfoldable pub single_statement : Text → Option (Result StatementError Text)
unfolding split_statements single
single_statement sql = elim (split_statements sql) [
  | none ↦ none
  | some stmts ↦ some (single stmts)
]
