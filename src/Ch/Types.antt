-- ===== src/Ch/Types.antt =====
-- internal/ch/types.go: the ClickHouse types and their canonical spelling.
pub mod Unwrap
use pggen.Prelude.{ℕ, Bool, true, false, ◌||◌, List, [], ◌∷◌, ◌++◌, ◌==◌, if◌then◌else◌}
use pggen.Prelude.Decimal.{itoa, itoa_ℕ}
use pggen.Prelude.Int.{ℤ}
use pggen.Prelude.Text.{Text, codes}

-- `Type`, with a constructor for each struct. An enum is the list of its labels with their values,
-- which the code keeps in two slices of one length. The elements of a tuple come with their names,
-- empty for an element without one; the code has no names at all for a positional tuple, which
-- `String` does not tell from empty names.
mutual
  pub data ChType : Type 0 where
    scalar : Text → ChType
    fixed_string : ℤ → ChType
    decimal : ℤ → ℤ → ChType
    date_time : Text → ChType
    date_time64 : ℤ → Text → ChType
    nullable : ChType → ChType
    low_cardinality : ChType → ChType
    array : ChType → ChType
    map : ChType → ChType → ChType
    enum : ℕ → List (Text × ℤ) → ChType
    tuple : Elems → ChType
    unsupported : Text → ChType

  pub data Elems : Type 0 where
    no_elems : Elems
    elem : Text → ChType → Elems → Elems

-- The replacer of `quote`.
unfoldable pub escape_quote : Text → Text
escape_quote [] = []
escape_quote (c ∷ s) =
    if c == b'\\' || c == b'\'' then b'\\' ∷ c ∷ escape_quote s else c ∷ escape_quote s

-- `quote(s)`.
unfoldable pub quote : Text → Text
unfolding escape_quote
quote s = b'\'' ∷ (escape_quote s ++ b'\'' ∷ [])

abbrev pub separator : Bool → Text
separator true = []
separator false = codes ", "

-- The loop of `Enum.String`; the flag is `i == 0`.
unfoldable pub enum_items : Bool → List (Text × ℤ) → Text
enum_items first [] = []
enum_items first ((label, v) ∷ items) =
    separator first ++ (quote label ++ (codes " = " ++ (itoa v ++ enum_items false items)))

-- The name of a tuple element and a space, or nothing.
unfoldable pub elem_name : Text → Text
elem_name [] = []
elem_name (c ∷ name) = (c ∷ name) ++ b' ' ∷ []

-- `String()` of each type, and the loop of `Tuple.String`.
unfoldable mutual
  unfolding elem_name enum_items quote

  pub to_string : ChType → Text
  to_string (scalar name) = name
  to_string (fixed_string n) = codes "FixedString(" ++ (itoa n ++ codes ")")
  to_string (decimal p s) = codes "Decimal(" ++ (itoa p ++ (codes ", " ++ (itoa s ++ codes ")")))
  to_string (date_time []) = codes "DateTime"
  to_string (date_time (c ∷ tz)) = codes "DateTime(" ++ (quote (c ∷ tz) ++ codes ")")
  to_string (date_time64 p []) = codes "DateTime64(" ++ (itoa p ++ codes ")")
  to_string (date_time64 p (c ∷ tz)) =
      codes "DateTime64(" ++ (itoa p ++ (codes ", " ++ (quote (c ∷ tz) ++ codes ")")))
  to_string (nullable t) = codes "Nullable(" ++ (to_string t ++ codes ")")
  to_string (low_cardinality t) = codes "LowCardinality(" ++ (to_string t ++ codes ")")
  to_string (array t) = codes "Array(" ++ (to_string t ++ codes ")")
  to_string (map k v) = codes "Map(" ++ (to_string k ++ (codes ", " ++ (to_string v ++ codes ")")))
  to_string (enum bits items) =
      codes "Enum" ++ (itoa_ℕ bits ++ (codes "(" ++ (enum_items true items ++ codes ")")))
  to_string (tuple es) = codes "Tuple(" ++ (elems_string true es ++ codes ")")
  to_string (unsupported raw) = raw

  pub elems_string : Bool → Elems → Text
  elems_string first no_elems = []
  elems_string first (elem name t es) =
      separator first ++ (elem_name name ++ (to_string t ++ elems_string false es))

-- `Key()`, by `chKey`.
unfoldable pub key : ChType → Text
key t = codes "ch:" ++ to_string t

-- `Unwrap(t)`.
unfoldable pub unwrap : ChType → ChType
unwrap (low_cardinality t) = unwrap t
unwrap t = t

-- `IsNullable(t)`.
abbrev is_nullable_type : ChType → Bool
is_nullable_type (nullable t) = true
is_nullable_type t = false

unfoldable pub is_nullable : ChType → Bool
unfolding unwrap
is_nullable t = is_nullable_type (unwrap t)

-- `Payload(t)`.
unfoldable pub payload : ChType → ChType
payload (low_cardinality t) = payload t
payload (nullable t) = payload t
payload t = t
