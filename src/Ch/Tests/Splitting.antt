-- ===== src/Ch/Tests/Splitting.antt =====
-- Runs of the splitter of statements, and its theorems at concrete inputs.
use pggen.Prelude.{◌≡◌, refl, List, [], ◌∷◌, some, All}
use pggen.Prelude.Result.{err}
use pggen.Prelude.Text.{Text, codes}
use pggen.Ch.Statements.{split_statements, single_statement, many_statements}
use pggen.Ch.Statements.Segments.{LiteralBody, IsLiteral, BlockBody, IsComment}
use pggen.Ch.Statements.Split.{split_statements_total, IsTrimmed, split_statements-IsTrimmed}
use pggen.Ch.Statements.Render.{
  Segment, byte, literal, comment, semicolon, IsSql, done, of_byte, of_literal, of_comment,
  of_semicolon, statements, split_statements-render,
}

abbrev file : Text
file = codes "a';'/*;*/ ; ;b"

abbrev segments : List Segment
segments =
    byte b'a'
    ∷ literal (codes "';'")
    ∷ comment (codes "/*;*/")
    ∷ byte b' '
    ∷ semicolon
    ∷ byte b' '
    ∷ semicolon
    ∷ byte b'b'
    ∷ []

segments-IsSql : IsSql segments
segments-IsSql = of_byte refl refl refl (
    of_literal (IsLiteral.literal refl (LiteralBody.plain (cc) (cc) (LiteralBody.close refl))) (
      of_comment (IsComment.block (BlockBody.more refl (BlockBody.close refl refl))) (
        of_byte refl refl refl
          (of_semicolon (of_byte refl refl refl (of_semicolon (of_byte refl refl refl done)))))))

split_statements-file : split_statements file ≡ some (codes "a';'" ∷ codes "b" ∷ [])
unfolding split_statements
split_statements-file = refl

split_statements_unclosed : split_statements (codes "'a\\';b") ≡ some (codes "'a\\';b" ∷ [])
unfolding split_statements
split_statements_unclosed = refl

single_statement-file : single_statement file ≡ some (err (many_statements 2))
unfolding single_statement
single_statement-file = refl

split_statements-render_example :
    split_statements (codes "a';'/*;*/ ; ;b") ≡ some (statements segments)
split_statements-render_example = split_statements-render segments-IsSql

split_statements-IsTrimmed_example : All IsTrimmed (codes "a';'" ∷ codes "b" ∷ [])
split_statements-IsTrimmed_example = split_statements-IsTrimmed file split_statements-file

split_statements_total_example : (stmts : List Text) × (split_statements file ≡ some stmts)
split_statements_total_example = split_statements_total file
