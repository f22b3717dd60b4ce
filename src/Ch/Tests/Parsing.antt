-- ===== src/Ch/Tests/Parsing.antt =====
-- Runs of the parser of types, and its theorems at concrete inputs.
use pggen.Prelude.{◌≡◌, ◌≢◌, refl, [], ◌∷◌}
use pggen.Prelude.Decimal.{atoi, itoa, itoa_ℕ}
use pggen.Prelude.Int.{pos, negsuc}
use pggen.Prelude.Result.{ok, err}
use pggen.Prelude.Text.{Text, codes, eq}
use pggen.Ch.Types.{
  ChType, scalar, nullable, array, enum, tuple, elem, no_elems, date_time64, unsupported, to_string,
}
use pggen.Ch.Zero.{zero_literal}
use pggen.Ch.Zero.Errors.{Succeeds, has_literal, zero_literal-parse}
use pggen.Ch.Parse.Lexer.{
  failed, out_of_fuel, expected_byte, expect, parse_string, parse_int, skip_balanced,
}
use pggen.Ch.Parse.Canonical.{IsCanonical}
use pggen.Ch.Parse.Sound.{parse-ne-out_of_fuel, parse-IsCanonical}
use pggen.Ch.Parse.RoundTrip.{parse-to_string-parse, key-injective}
use pggen.Ch.Parse.{parse}

abbrev spelling : Text
spelling =
    codes "Tuple(a Array(Nullable(UInt8)), Enum8('it\\'s' = -1, 'b' = 2), d DateTime64(3,'UTC'))"

abbrev spelled : ChType
spelled = tuple (
    elem (codes "a") (array (nullable (scalar (codes "UInt8")))) (
      elem [] (enum 8 ((codes "it's", negsuc 0) ∷ (codes "b", pos 2) ∷ []))
        (elem (codes "d") (date_time64 (pos 3) (codes "UTC")) no_elems)))

parse-spelled : parse spelling ≡ ok spelled
unfolding parse eq expect parse_string parse_int atoi
parse-spelled = refl

parse_nested :
    parse (codes " Array( Nested(a ')(' , b (1)) ) ")
    ≡ ok (array (unsupported (codes " Nested(a ')(' , b (1))")))
unfolding parse eq expect skip_balanced
parse_nested = refl

parse_unclosed : parse (codes "Array(Int8") ≡ err (failed (expected_byte b')') [])
unfolding parse eq expect
parse_unclosed = refl

to_string-spelled :
    to_string spelled
    ≡ codes "Tuple(a Array(Nullable(UInt8)), Enum8('it\\'s' = -1, 'b' = 2), d DateTime64(3, 'UTC'))"
unfolding to_string itoa_ℕ itoa
to_string-spelled = refl

abbrev spaced : Text
spaced = codes "Nullable( Int8 )"

abbrev tight : Text
tight = codes "Nullable(Int8)"

parse-spaced : parse spaced ≡ ok (nullable (scalar (codes "Int8")))
unfolding parse eq expect
parse-spaced = refl

parse-tight : parse tight ≡ ok (nullable (scalar (codes "Int8")))
unfolding parse eq expect
parse-tight = refl

parse-to_string-parse_example : parse (to_string spelled) ≡ parse spelling
parse-to_string-parse_example = parse-to_string-parse spelling parse-spelled refl

key-injective_example : nullable (scalar (codes "Int8")) ≡ nullable (scalar (codes "Int8"))
key-injective_example = key-injective spaced tight parse-spaced parse-tight refl refl refl

parse-IsCanonical_example : IsCanonical spelled
parse-IsCanonical_example = parse-IsCanonical spelling parse-spelled

parse-ne-out_of_fuel_example : parse (codes "Array(Array(Int8)") ≢ err out_of_fuel
parse-ne-out_of_fuel_example = parse-ne-out_of_fuel (codes "Array(Array(Int8)")

zero_literal-spelled : zero_literal spelled ≡ ok (codes "([],it's,1970-01-01 00:00:00)")
unfolding zero_literal
zero_literal-spelled = refl

parse_array_nested :
    parse (codes "Tuple(Nested(a Int8))")
    ≡ ok (tuple (elem [] (unsupported (codes "Nested(a Int8)")) no_elems))
unfolding parse eq expect skip_balanced
parse_array_nested = refl

zero_literal-parse_example :
    Succeeds
      (has_literal (tuple (elem [] (unsupported (codes "Nested(a Int8)")) no_elems)))
      (zero_literal (tuple (elem [] (unsupported (codes "Nested(a Int8)")) no_elems)))
zero_literal-parse_example = zero_literal-parse (codes "Tuple(Nested(a Int8))") parse_array_nested
