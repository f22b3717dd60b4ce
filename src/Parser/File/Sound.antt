-- ===== src/Parser/File/Sound.antt =====
-- What `parseFile` promises of the queries that its loop reads and of its errors.
use pggen.Prelude.{ℕ, ◌≤◌, ◌≢◌, List, length, All}
use pggen.Prelude.Text.{Text}
use pggen.Parser.Prepare.{Placeholder}
use pggen.Parser.State.{State, SyntaxError}
use pggen.Parser.Query.{Query}
use pggen.Parser.Query.Sound.{IsRead}
use pggen.Parser.File.{skip_bom}

-- The errors are few, and each query is one of the file, or bad where there is an error.
abbrev pub IsOutcome : Text → Placeholder → List Query → List SyntaxError → Type 0
IsOutcome src ph queries errors = (length errors ≤ 12) × All (IsRead src ph errors) queries

-- A character that the scanner reports nothing of.
abbrev pub IsCleanChar : ℕ → Type 0
IsCleanChar c = (c ≢ 0) × (c ≢ 0xFEFF)

-- A file without a NUL, and without a byte order mark but at its beginning.
abbrev pub IsClean : Text → Type 0
IsClean src = All IsCleanChar (skip_bom src).1
