-- ===== src/Ch/Zero.antt =====
-- internal/ch/zero.go: the throwaway literal that inference binds for a parameter.
pub mod Errors
use pggen.Prelude.{List, [], ◌∷◌, ◌++◌, ◌==◌, if◌then◌else◌, Bool, ◌||◌}
use pggen.Prelude.Result.{Result, ok, err, ◌>>=◌}
use pggen.Prelude.Text.{Text, codes, eq, join, contains}
use pggen.Ch.Types.{
  ChType, scalar, fixed_string, decimal, date_time, date_time64, nullable, low_cardinality, array,
  map, enum, tuple, unsupported, Elems, no_elems, elem,
}

pub data ZeroError : Type 0 where
  empty_enum : ChType → ZeroError
  unsupported_type : Text → ZeroError
  unknown_scalar : Text → ZeroError

abbrev pub numbers : List Text
numbers =
    codes "Int8"
    ∷ codes "Int16"
    ∷ codes "Int32"
    ∷ codes "Int64"
    ∷ codes "Int128"
    ∷ codes "Int256"
    ∷ codes "UInt8"
    ∷ codes "UInt16"
    ∷ codes "UInt32"
    ∷ codes "UInt64"
    ∷ codes "UInt128"
    ∷ codes "UInt256"
    ∷ codes "Float32"
    ∷ codes "Float64"
    ∷ []

-- `scalarZero(name)`.
unfoldable pub scalar_zero : Text → Result ZeroError Text
unfolding eq contains
scalar_zero name =
    if eq name (codes "String")
    then ok []
    else if eq name (codes "Bool") || eq name (codes "Boolean")
    then ok (codes "false")
    else if contains numbers name
    then ok (codes "0")
    else if eq name (codes "Date") || eq name (codes "Date32")
    then ok (codes "1970-01-01")
    else if eq name (codes "DateTime") || eq name (codes "DateTime64")
    then ok (codes "1970-01-01 00:00:00")
    else if eq name (codes "UUID")
    then ok (codes "00000000-0000-0000-0000-000000000000")
    else if eq name (codes "IPv4")
    then ok (codes "0.0.0.0")
    else if eq name (codes "IPv6")
    then ok (codes "::")
    else err (unknown_scalar name)

-- `ZeroLiteral(t)`, and its loop over the elements of a tuple.
unfoldable mutual
  unfolding scalar_zero join

  pub zero_literal : ChType → Result ZeroError Text
  zero_literal (nullable t) = zero_literal t
  zero_literal (low_cardinality t) = zero_literal t
  zero_literal (array t) = ok (codes "[]")
  zero_literal (map k v) = ok (codes "{}")
  zero_literal (fixed_string n) = ok []
  zero_literal (decimal p s) = ok (codes "0")
  zero_literal (date_time tz) = ok (codes "1970-01-01 00:00:00")
  zero_literal (date_time64 p tz) = ok (codes "1970-01-01 00:00:00")
  zero_literal (enum bits []) = err (empty_enum (enum bits []))
  zero_literal (enum bits ((label, v) ∷ items)) = ok label
  zero_literal (tuple es) =
      zero_literals es >>= λ parts. ok (b'(' ∷ (join parts (codes ",") ++ codes ")"))
  zero_literal (scalar name) = scalar_zero name
  zero_literal (unsupported raw) = err (unsupported_type raw)

  pub zero_literals : Elems → Result ZeroError (List Text)
  zero_literals no_elems = ok []
  zero_literals (elem name t es) =
      zero_literal t >>= λ lit. zero_literals es >>= λ parts. ok (lit ∷ parts)
