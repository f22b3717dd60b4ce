-- ===== src/Ch/Tests/Scanning.antt =====
-- Runs of the functions that scan a query, and their theorems at concrete inputs.
use pggen.Prelude.{ℕ, Bool, true, false, not, ◌&&◌, ◌==◌, arith, All, ◌≡◌, ◌≢◌, refl, List, [], ◌∷◌}
use pggen.Prelude.Result.{ok, err}
use pggen.Prelude.Text.{Text, codes, eq, cut, trim_space}
use pggen.Ch.Types.{scalar, to_string}
use pggen.Ch.Parse.Lexer.{expect}
use pggen.Ch.Parse.{parse}
use pggen.Ch.Statements.Segments.{LiteralBody, IsLiteral, BlockBody, IsComment}
use pggen.Ch.Params.{
  Param, out_of_fuel, unclosed_brace, scan_params, rename_params, rewrite_params,
  substitute_identifiers, braces,
}
use pggen.Ch.Params.Pieces.{
  Piece, byte, literal, comment, param, Spells, IsQuery, done, of_byte, of_literal, of_comment,
  of_param, output,
}
use pggen.Ch.Params.Rewrite.{
  rename_params-render, rewrite_params-render, substitute_identifiers-render,
}
use pggen.Ch.Params.Found.{AreFound, scan_params-AreFound, scan-ne-out_of_fuel}

abbrev query : Text
query = codes "x{ a : Int8}'{'/*{*/{t:Identifier}"

abbrev a_param : Param
a_param = record { name = codes "a"; type = scalar (codes "Int8") }

abbrev t_param : Param
t_param = record { name = codes "t"; type = scalar (codes "Identifier") }

abbrev pieces : List Piece
pieces =
    byte b'x'
    ∷ param (codes " a ") (codes " Int8") a_param
    ∷ literal (codes "'{'")
    ∷ comment (codes "/*{*/")
    ∷ param (codes "t") (codes "Identifier") t_param
    ∷ []

abbrev values : Text → Text
values name = codes "db.t"

abbrev upper : Text → Text
upper name = codes "A"

parse_int8 : parse (codes "Int8") ≡ ok (scalar (codes "Int8"))
unfolding parse eq expect
parse_int8 = refl

parse_identifier : parse (codes "Identifier") ≡ ok (scalar (codes "Identifier"))
unfolding parse eq expect
parse_identifier = refl

-- Whether a text lacks a byte, by a test.
abbrev has_no : ℕ → Text → Bool
has_no sep [] = true
has_no sep (c ∷ s) = not (c == sep) && has_no sep s

apart : (c d : ℕ) → (c == d) ≡ false → c ≢ d
apart c d h = ground arith

lacks : (sep : ℕ) (s : Text) → has_no sep s ≡ true → All (λ c. c ≢ sep) s
lacks sep [] h = tt
lacks sep (c ∷ s) h = (ground arith, lacks sep s (ground arith))

a-Spells : Spells (codes " a ") (codes " Int8") a_param
unfolding trim_space
a-Spells = record {
  no_colon = lacks b':' (codes " a ") refl;
  no_brace = lacks b'}' (codes " a : Int8") refl;
  named = cc;
  trimmed = refl;
  typed = parse_int8;
}

t-Spells : Spells (codes "t") (codes "Identifier") t_param
unfolding trim_space
t-Spells = record {
  no_colon = lacks b':' (codes "t") refl;
  no_brace = lacks b'}' (codes "t:Identifier") refl;
  named = cc;
  trimmed = refl;
  typed = parse_identifier;
}

pieces-IsQuery : IsQuery pieces
pieces-IsQuery = of_byte refl refl refl (
    of_param a-Spells (
      of_literal
        (IsLiteral.literal refl (
          LiteralBody.plain (apart b'{' b'\\' refl) (apart b'{' b'\'' refl)
            (LiteralBody.close refl)))
        (of_comment (IsComment.block (BlockBody.more refl (BlockBody.close refl refl)))
          (of_param t-Spells done))))

scan_params-query : scan_params query ≡ ok (a_param ∷ t_param ∷ [])
unfolding scan_params trim_space cut parse eq expect
scan_params-query = refl

scan_params_unclosed : scan_params (codes "{a:Int8") ≡ err unclosed_brace
unfolding scan_params cut
scan_params_unclosed = refl

rename_params-render_example :
    rename_params (codes "x{ a : Int8}'{'/*{*/{t:Identifier}") upper
    ≡ ok (output (λ p. braces (upper p.name) (to_string p.type)) pieces)
rename_params-render_example = rename_params-render upper pieces-IsQuery

rewrite_params-render_example :
    rewrite_params (codes "x{ a : Int8}'{'/*{*/{t:Identifier}")
    ≡ ok (codes "xcast(@a AS Int8)'{'/*{*/{t:Identifier}")
unfolding eq to_string
rewrite_params-render_example = rewrite_params-render pieces-IsQuery

substitute_identifiers-render_example :
    substitute_identifiers (codes "x{ a : Int8}'{'/*{*/{t:Identifier}") values
    ≡ ok (codes "x{a:Int8}'{'/*{*/db.t")
unfolding eq to_string
substitute_identifiers-render_example = substitute_identifiers-render values pieces-IsQuery

scan_params-AreFound_example : AreFound (a_param ∷ t_param ∷ [])
scan_params-AreFound_example = scan_params-AreFound query scan_params-query

scan-ne-out_of_fuel_example :
    (scan_params query ≢ err out_of_fuel)
    × (rename_params query upper ≢ err out_of_fuel)
    × (rewrite_params query ≢ err out_of_fuel)
    × (substitute_identifiers query values ≢ err out_of_fuel)
scan-ne-out_of_fuel_example = scan-ne-out_of_fuel query upper values
