-- ===== src/Resolve.antt =====
-- internal/codegen/golang/ch_type_resolver.go and the table of internal/codegen/golang/ch_known_types.go:
-- the Go type of a ClickHouse type. The overrides are a function from the spelling of a type.
pub mod Literal
mod Tests
use pggen.Prelude.{ℕ, Bool, true, false, List, [], ◌∷◌, Option, none, some, if◌then◌else◌}
use pggen.Prelude.Result.{Result, ok, err, ◌>>=◌, map_err}
use pggen.Prelude.Text.{Text, codes, eq}
use pggen.Ch.Types.{ChType, Elems, to_string}
use pggen.GoType.{GoType, array_type, map_type, import_type, opaque_type, pointer_type}
use pggen.GoType.Opaque.{OpaqueError, SqlType, array_named, other_type, parse_opaque_type}

pub data ResolveError : Type 0 where
  bad_override : OpaqueError → ResolveError
  element_of key_of value_of : ChType → ResolveError → ResolveError
  no_go_type : ChType → ResolveError

-- `chString`, `chDecimal`, `chTime`, `chUUID`, `chNetipAddr` and `chBigInt`.
abbrev pub ch_string : GoType
ch_string = opaque_type (codes "string")

abbrev pub ch_decimal : GoType
ch_decimal = import_type (codes "github.com/shopspring/decimal") (opaque_type (codes "Decimal"))

abbrev pub ch_time : GoType
ch_time = import_type (codes "time") (opaque_type (codes "Time"))

abbrev pub ch_uuid : GoType
ch_uuid = import_type (codes "github.com/google/uuid") (opaque_type (codes "UUID"))

abbrev pub ch_netip_addr : GoType
ch_netip_addr = import_type (codes "net/netip") (opaque_type (codes "Addr"))

abbrev pub ch_big_int : GoType
ch_big_int = pointer_type (import_type (codes "math/big") (opaque_type (codes "Int")))

-- `chScalarTypes`.
abbrev pub ch_scalar_types : List (Text × GoType)
ch_scalar_types =
    (codes "String", ch_string)
    ∷ (codes "Bool", opaque_type (codes "bool"))
    ∷ (codes "Identifier", ch_string)
    ∷ (codes "Int8", opaque_type (codes "int8"))
    ∷ (codes "Int16", opaque_type (codes "int16"))
    ∷ (codes "Int32", opaque_type (codes "int32"))
    ∷ (codes "Int64", opaque_type (codes "int64"))
    ∷ (codes "UInt8", opaque_type (codes "uint8"))
    ∷ (codes "UInt16", opaque_type (codes "uint16"))
    ∷ (codes "UInt32", opaque_type (codes "uint32"))
    ∷ (codes "UInt64", opaque_type (codes "uint64"))
    ∷ (codes "Float32", opaque_type (codes "float32"))
    ∷ (codes "Float64", opaque_type (codes "float64"))
    ∷ (codes "Int128", ch_big_int)
    ∷ (codes "Int256", ch_big_int)
    ∷ (codes "UInt128", ch_big_int)
    ∷ (codes "UInt256", ch_big_int)
    ∷ (codes "Date", ch_time)
    ∷ (codes "Date32", ch_time)
    ∷ (codes "DateTime", ch_time)
    ∷ (codes "DateTime64", ch_time)
    ∷ (codes "UUID", ch_uuid)
    ∷ (codes "IPv4", ch_netip_addr)
    ∷ (codes "IPv6", ch_netip_addr)
    ∷ []

unfoldable pub scalar_type : List (Text × GoType) → Text → Option GoType
unfolding eq
scalar_type [] name = none
scalar_type ((n, t) ∷ types) name = if eq n name then some t else scalar_type types name

-- `findChKnownType(t)`.
unfoldable pub find_ch_known_type : ChType → Option GoType
unfolding scalar_type
find_ch_known_type (ChType.fixed_string n) = some ch_string
find_ch_known_type (ChType.decimal p s) = some ch_decimal
find_ch_known_type (ChType.date_time tz) = some ch_time
find_ch_known_type (ChType.date_time64 p tz) = some ch_time
find_ch_known_type (ChType.scalar name) = scalar_type ch_scalar_types name
find_ch_known_type _ = none

-- A type as `ParseOpaqueType` reads it: an array has an element type.
abbrev pub sql_type_of : ChType → SqlType
sql_type_of (ChType.array t) = array_named (to_string (ChType.array t))
sql_type_of _ = other_type

unfoldable pub known_type : ChType → Result ResolveError GoType
unfolding find_ch_known_type
known_type t = elim (find_ch_known_type t) [ none ↦ err (no_go_type t) | some g ↦ ok g ]

-- An override, or what the structure of the type gives.
unfoldable pub overridden :
    Option Text → ChType → Result ResolveError GoType → Result ResolveError GoType
unfolding parse_opaque_type
overridden none t structural = structural
overridden (some go_type) t structural =
    map_err bad_override (parse_opaque_type go_type (sql_type_of t))

-- `resolve(t, pkgPath)`.
unfoldable pub resolve : (Text → Option Text) → ChType → Result ResolveError GoType
unfolding overridden known_type
resolve overrides (ChType.low_cardinality t) =
    overridden (overrides (to_string (ChType.low_cardinality t))) (ChType.low_cardinality t)
      (resolve overrides t)
resolve overrides (ChType.nullable t) =
    overridden (overrides (to_string (ChType.nullable t))) (ChType.nullable t)
      (resolve overrides t >>= λ elem. ok (pointer_type elem))
resolve overrides (ChType.array t) =
    overridden (overrides (to_string (ChType.array t))) (ChType.array t) (
      map_err (element_of (ChType.array t)) (resolve overrides t) >>= λ elem.
      ok (array_type (to_string (ChType.array t)) elem))
resolve overrides (ChType.map k v) =
    overridden (overrides (to_string (ChType.map k v))) (ChType.map k v) (
      map_err (key_of (ChType.map k v)) (resolve overrides k) >>= λ key.
      map_err (value_of (ChType.map k v)) (resolve overrides v) >>= λ val.
      ok (map_type (to_string (ChType.map k v)) key val))
resolve overrides (ChType.enum bits items) =
    overridden (overrides (to_string (ChType.enum bits items))) (ChType.enum bits items)
      (ok ch_string)
resolve overrides (ChType.tuple es) =
    overridden (overrides (to_string (ChType.tuple es))) (ChType.tuple es)
      (err (no_go_type (ChType.tuple es)))
resolve overrides (ChType.unsupported raw) =
    overridden (overrides (to_string (ChType.unsupported raw))) (ChType.unsupported raw)
      (err (no_go_type (ChType.unsupported raw)))
resolve overrides (ChType.scalar name) =
    overridden (overrides (to_string (ChType.scalar name))) (ChType.scalar name)
      (known_type (ChType.scalar name))
resolve overrides (ChType.fixed_string n) =
    overridden (overrides (to_string (ChType.fixed_string n))) (ChType.fixed_string n)
      (known_type (ChType.fixed_string n))
resolve overrides (ChType.decimal p s) =
    overridden (overrides (to_string (ChType.decimal p s))) (ChType.decimal p s)
      (known_type (ChType.decimal p s))
resolve overrides (ChType.date_time tz) =
    overridden (overrides (to_string (ChType.date_time tz))) (ChType.date_time tz)
      (known_type (ChType.date_time tz))
resolve overrides (ChType.date_time64 p tz) =
    overridden (overrides (to_string (ChType.date_time64 p tz))) (ChType.date_time64 p tz)
      (known_type (ChType.date_time64 p tz))
