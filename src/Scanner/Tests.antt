-- ===== src/Scanner/Tests.antt =====
-- Runs of the scanner on files, and the theorems about it at concrete inputs.
use pggen.Prelude.{ℕ, ◌≡◌, ◌≢◌, refl, Bool, false, List, [], ◌∷◌, none, some, arith, All}
use pggen.Prelude.Text.{Text, codes, cut_prefix}
use pggen.Scanner.{
  illegal, eof, line_comment, string, query_fragment, semicolon, token, skip_whitespace,
  line_comment_body, quoted_body, index_of, tag_body, dollar_contents, fragment_body, scan_token,
  scan,
}
use pggen.Scanner.Tokens.{Lexeme, tokens, tokens_total}
use pggen.Scanner.Positions.{StandsIn, tokens-StandsIn}
use pggen.Scanner.Literal.{scan-quoted}

-- No character beyond ASCII is a letter.
abbrev ascii : ℕ → Bool
ascii c = false

abbrev query_file : Text
query_file = codes "-- name: A :one\nSELECT pggen.arg('x'), foo$1;"

abbrev query_lexemes : List Lexeme
query_lexemes =
    record { tok = line_comment; pos = 0; lit = codes "-- name: A :one" }
    ∷ record { tok = query_fragment; pos = 16; lit = codes "SELECT pggen.arg(" }
    ∷ record { tok = string; pos = 33; lit = codes "'x'" }
    ∷ record { tok = query_fragment; pos = 36; lit = codes "), foo$1" }
    ∷ record { tok = semicolon; pos = 44; lit = [] }
    ∷ record { tok = eof; pos = 45; lit = [] }
    ∷ []

tokens-query_file : tokens ascii 46 0 query_file ≡ some query_lexemes
unfolding tokens skip_whitespace scan_token line_comment_body quoted_body fragment_body
tokens-query_file = refl

-- The end of a string in dollar quotes is looked for in bytes and stepped to in characters, so behind a
-- character of two bytes one more character than the string has is read.
dollar_string_reads_over :
    scan ascii (codes "$$é$$; SELECT")
    ≡ ([], token string (codes "$$é$$;") (codes "$$é$$;") (codes " SELECT"))
unfolding scan skip_whitespace scan_token tag_body dollar_contents index_of cut_prefix
dollar_string_reads_over = refl

scan-dollar_string :
    scan ascii (codes "$a$ 'b' $a$; SELECT")
    ≡ ([], token string (codes "$a$ 'b' $a$") (codes "$a$ 'b' $a$") (codes "; SELECT"))
unfolding scan skip_whitespace scan_token tag_body dollar_contents index_of cut_prefix
scan-dollar_string = refl

scan-unclosed :
    tokens ascii 3 0 (codes " 'x") ≡ some (record { tok = illegal; pos = 1; lit = [] } ∷ [])
unfolding tokens skip_whitespace scan_token quoted_body
scan-unclosed = refl

tokens_total_example : tokens ascii 46 0 query_file ≢ none
tokens_total_example = tokens_total ascii 46 0 query_file (omega arith) (ground arith)

tokens-StandsIn_example : All (StandsIn query_file) query_lexemes
tokens-StandsIn_example = tokens-StandsIn ascii 46 query_file tokens-query_file

scan-quoted_example :
    scan ascii (codes "'it''s' || x")
    ≡ ([], token string (codes "'it''s'") (codes "'it''s'") (codes " || x"))
scan-quoted_example =
    scan-quoted ascii b'\'' string (codes "it's") (codes " || x") refl refl (ground arith)
