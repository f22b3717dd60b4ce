-- ===== src/Ch/Insert.antt =====
-- internal/ch/insert.go: the target of an INSERT statement.
pub mod Blank
use pggen.Prelude.{
  ℕ, zero, suc, Bool, true, false, ◌&&◌, ◌||◌, List, [], ◌∷◌, ◌++◌, Option, none, some, ◌==◌, ◌-◌,
  if◌then◌else◌, length, leb,
}
use pggen.Prelude.Text.{Text, codes, is_empty}
use pggen.Ch.Parse.Lexer.{is_ident_byte, span, slice}
use pggen.Ch.Statements.{skip_comment, skip_literal}

pub record InsertTarget : Type 0 where
  pub table : Text
  pub sql_name : Text
  pub columns : List Text

-- A byte of a text folded as `strings.EqualFold` folds it beside ASCII.
abbrev pub fold_byte : ℕ → ℕ
fold_byte c = if leb b'a' c && leb c b'z' then c - 32 else c

-- `strings.EqualFold(word, keyword)`, of a word in ASCII and a keyword in capitals.
unfoldable pub equal_fold : Text → Text → Bool
equal_fold [] [] = true
equal_fold [] (d ∷ keyword) = false
equal_fold (c ∷ word) [] = false
equal_fold (c ∷ word) (d ∷ keyword) = fold_byte c == d && equal_fold word keyword

abbrev pub is_space_byte : ℕ → Bool
is_space_byte c = c == b' ' || c == b'\t' || c == b'\n' || c == b'\r'

-- `skipSpaceAndComments(sql, i)`: the text from the index it returns. A round takes a unit of fuel
-- and at least one byte; without fuel the text is left as it is.
unfoldable pub skip_blank_loop : ℕ → Text → Text
skip_blank_loop zero sql = sql
skip_blank_loop (suc fuel) [] = []
skip_blank_loop (suc fuel) (c ∷ s) =
    if is_space_byte c
    then skip_blank_loop fuel s
    else elim (skip_comment (c ∷ s)) [ some (_, rest) ↦ skip_blank_loop fuel rest | none ↦ c ∷ s ]

unfoldable pub skip_space_and_comments : Text → Text
unfolding skip_blank_loop skip_comment
skip_space_and_comments sql = skip_blank_loop (length sql) sql

-- `readWord(sql, i)`: the word, and the text behind it.
unfoldable pub read_word : Text → Text × Text
unfolding span is_ident_byte
read_word sql = span is_ident_byte sql

-- `inner` of `unescapeQuoted`: all but the last of the bytes, if that is the quote.
unfoldable pub closed_by : ℕ → Text → Option Text
closed_by quote [] = none
closed_by quote (c ∷ []) = if c == quote then some [] else none
closed_by quote (c ∷ d ∷ s) = elim (closed_by quote (d ∷ s)) [
  | none ↦ none
  | some inner ↦ some (c ∷ inner)
]

-- The loop of `unescapeQuoted`; on a text without a backslash it is the text itself.
unfoldable pub unescape : Text → Text
unescape [] = []
unescape (c ∷ []) = c ∷ []
unescape (c ∷ d ∷ s) =
    let escaped = unescape s in
    let plain = unescape (d ∷ s) in if c == b'\\' then d ∷ escaped else c ∷ plain

-- `unescapeQuoted(quoted)`.
unfoldable pub unescape_quoted : Text → Text
unfolding closed_by unescape
unescape_quoted [] = []
unescape_quoted (quote ∷ s) = elim (closed_by quote s) [ none ↦ [] | some inner ↦ unescape inner ]

-- `readIdent(sql, i)`: the name, and the text behind it.
unfoldable pub read_ident : Text → Text × Text
unfolding skip_literal unescape_quoted read_word
read_ident [] = ([], [])
read_ident (c ∷ s) = elim (skip_literal (c ∷ s)) [
  | some (literal, rest) ↦ if c == b'\'' then ([], c ∷ s) else (unescape_quoted literal, rest)
  | none ↦ read_word (c ∷ s)
]

-- The qualifier and what is read behind the dot.
abbrev pub qualify : Text → Text → Text × Text → Text × Text
qualify sql name ([], _) = ([], sql)
qualify sql name (q ∷ qualified, after) = (name ++ b'.' ∷ q ∷ qualified, after)

-- The qualifier `name` read from `sql`, with the text behind it.
abbrev pub qualified_ident : Text → Text × Text → Text × Text
qualified_ident sql ([], next) = ([], sql)
qualified_ident sql (n ∷ name, []) = (n ∷ name, [])
qualified_ident sql (n ∷ name, c ∷ next) =
    if c == b'.' then qualify sql (n ∷ name) (read_ident next) else (n ∷ name, c ∷ next)

-- `readQualifiedIdent(sql, i)`.
unfoldable pub read_qualified_ident : Text → Text × Text
unfolding read_ident
read_qualified_ident sql = qualified_ident sql (read_ident sql)

-- A comma is skipped with the blanks behind it.
unfoldable pub skip_comma : Text → Text
unfolding skip_space_and_comments
skip_comma [] = []
skip_comma (c ∷ s) = if c == b',' then skip_space_and_comments s else c ∷ s

-- The loop of `readColumnList`. A round takes a unit of fuel and at least one byte.
unfoldable pub column_loop : ℕ → Text → List Text → Option (List Text)
column_loop zero sql columns = none
column_loop (suc fuel) [] columns = none
column_loop (suc fuel) (c ∷ s) columns =
    let (name, next) = read_ident (c ∷ s) in
    let more =
      column_loop fuel (skip_comma (skip_space_and_comments next)) (columns ++ name ∷ []) in
    if c == b')' then some columns else if is_empty name then none else more

-- `readColumnList(sql, i)`, on the text behind the parenthesis.
unfoldable pub read_column_list : Text → Option (List Text)
unfolding column_loop skip_space_and_comments read_ident skip_comma
read_column_list sql = column_loop (suc (length sql)) (skip_space_and_comments sql) []

-- The columns, if the text has a list of them.
unfoldable pub columns_at : InsertTarget → Text → Option InsertTarget
unfolding read_column_list
columns_at target [] = some target
columns_at target (c ∷ s) =
    if c == b'('
    then elim (read_column_list s) [
      | none ↦ none
      | some columns ↦
          some (record { table = target.table; sql_name = target.sql_name; columns = columns })
    ]
    else some target

-- The target that starts the text.
abbrev pub target_at : Text → Text × Text → Option InsertTarget
target_at sql ([], _) = none
target_at sql (t ∷ table, after) =
    columns_at (record { table = t ∷ table; sql_name = slice sql after; columns = [] })
      (skip_space_and_comments after)

-- The target behind `INSERT INTO`; the word is the one that starts the text.
abbrev pub into_target : Text → Text × Text → Option InsertTarget
into_target sql (word, next) =
    if equal_fold word (codes "FUNCTION")
    then none
    else let start =
        if equal_fold word (codes "TABLE") then skip_space_and_comments next else sql in
      target_at start (read_qualified_ident start)

-- A keyword and the text behind it and the blanks.
unfoldable pub keyword : Text → Text → Option Text
unfolding skip_space_and_comments read_word equal_fold
keyword name sql =
    let (word, next) = read_word sql in
    if equal_fold word name then some (skip_space_and_comments next) else none

-- `ScanInsertTarget(sql)`; `none` for a false `ok`.
unfoldable pub scan_insert_target : Text → Option InsertTarget
unfolding keyword read_qualified_ident columns_at
scan_insert_target sql = elim (keyword (codes "INSERT") (skip_space_and_comments sql)) [
  | none ↦ none
  | some after_insert ↦ elim (keyword (codes "INTO") after_insert) [
    | none ↦ none
    | some after_into ↦ into_target after_into (read_word after_into)
  ]
]
