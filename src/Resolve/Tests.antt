-- ===== src/Resolve/Tests.antt =====
-- Runs of the resolver of Go types, and the theorem about it at a concrete input.
use pggen.Prelude.{◌≡◌, ◌≢◌, refl, Option, none, some, if◌then◌else◌}
use pggen.Prelude.Result.{ok, err}
use pggen.Prelude.Text.{Text, codes, eq}
use pggen.Ch.Types.{ChType, to_string, payload}
use pggen.Ch.Parse.{parse}
use pggen.Ch.Parse.Lexer.{expect}
use pggen.Ch.Zero.{zero_literal}
use pggen.GoType.{GoType, array_type, import_type, opaque_type, pointer_type}
use pggen.GoType.Opaque.{absent, parse_opaque_type, is_import_path}
use pggen.Resolve.{
  element_of, no_go_type, ch_big_int, ch_decimal, resolve, find_ch_known_type, scalar_type,
}
use pggen.Resolve.Literal.{no_overrides, zero_literal-resolve}

abbrev column : Text
column = codes "LowCardinality(Nullable(UUID))"

abbrev column_type : ChType
column_type = ChType.low_cardinality (ChType.nullable (ChType.scalar (codes "UUID")))

abbrev column_go_type : GoType
column_go_type =
    pointer_type (import_type (codes "github.com/google/uuid") (opaque_type (codes "UUID")))

parse-column : parse column ≡ ok column_type
unfolding parse eq expect
parse-column = refl

resolve-column : resolve no_overrides column_type ≡ ok column_go_type
unfolding resolve find_ch_known_type scalar_type eq
resolve-column = refl

-- An override of the element applies below the array.
abbrev override_uuid : Text → Option Text
override_uuid name = if eq name (codes "UUID") then some (codes "*example.com/ids.Id") else none

resolve-override :
    resolve override_uuid (ChType.array (ChType.scalar (codes "UUID")))
    ≡ ok (
        array_type
          (codes "Array(UUID)")
          (pointer_type (import_type (codes "example.com/ids") (opaque_type (codes "Id")))))
unfolding resolve to_string parse_opaque_type is_import_path eq
resolve-override = refl

resolve-tuple :
    resolve no_overrides (ChType.array (ChType.unsupported (codes "Point")))
    ≡ err (
        element_of
          (ChType.array (ChType.unsupported (codes "Point")))
          (no_go_type (ChType.unsupported (codes "Point"))))
unfolding resolve
resolve-tuple = refl

-- The constants are what `MustParseKnownType` gives for their names.
parse_opaque_type-decimal :
    parse_opaque_type (codes "github.com/shopspring/decimal.Decimal") absent ≡ ok ch_decimal
unfolding parse_opaque_type is_import_path
parse_opaque_type-decimal = refl

parse_opaque_type-big_int : parse_opaque_type (codes "*math/big.Int") absent ≡ ok ch_big_int
unfolding parse_opaque_type is_import_path
parse_opaque_type-big_int = refl

not_identifier : payload column_type ≢ ChType.scalar (codes "Identifier")
unfolding payload
not_identifier = λ e. cc

zero_literal-resolve_example : (lit : Text) × (zero_literal column_type ≡ ok lit)
zero_literal-resolve_example =
    zero_literal-resolve column column_type column_go_type parse-column not_identifier
      resolve-column
