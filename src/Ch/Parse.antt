-- ===== src/Ch/Parse.antt =====
-- internal/ch/parse.go: a ClickHouse type name into a type. `parse_type` is the code's recursion with
-- the call for a part of the type as a parameter; each level of it takes a unit of fuel.
pub mod Lexer
pub mod Ensures
pub mod Canonical
pub mod Arguments
pub mod Sound
pub mod Spelling
pub mod Supported
pub mod EnumTrip
pub mod Trips
pub mod LeafTrips
pub mod CompositeTrips
pub mod TupleTrip
pub mod RoundTrip
use pggen.Prelude.{
  ℕ, zero, suc, ◌+◌, Bool, true, false, not, ◌&&◌, ◌||◌, List, [], ◌∷◌, ◌++◌, ◌==◌, if◌then◌else◌,
  length,
}
use pggen.Prelude.Int.{ℤ, pos, negsuc, leb_ℤ}
use pggen.Prelude.Result.{Result, ok, err, ◌>>=◌}
use pggen.Prelude.Text.{Text, codes, eq}
use pggen.Ch.Types.{
  ChType, scalar, fixed_string, decimal, date_time, date_time64, nullable, low_cardinality, array,
  map, enum, tuple, unsupported, Elems, no_elems, elem,
}
use Lexer.{
  enum_out_of_range, trailing_text, ParseError, failed, out_of_fuel, Parser, fail, skip_space,
  accept, expect, parse_ident, parse_string, parse_int, skip_balanced, slice,
}

-- `parenInt()`, `parenString()` and `parseParenType()`: one argument in parentheses.
unfoldable pub paren {ℓ} : {A : Type ℓ} → Parser A → Parser A
paren argument s = do
  inner ← expect b'(' s
  (a, after) ← argument inner
  rest ← expect b')' after
  ok (a, rest)

-- `Decimal(P, S)` behind its name.
unfoldable pub decimal_args : Parser ChType
decimal_args s = do
  inner ← expect b'(' s
  (precision, after) ← parse_int inner
  second ← expect b',' after
  (scale, last) ← parse_int second
  rest ← expect b')' last
  ok (decimal precision scale, rest)

-- `DateTime64(P)` or `DateTime64(P, 'zone')` behind its name.
abbrev pub zone_found : Bool × Text → Result ParseError (Text × Text)
zone_found (true, rest) = parse_string rest
zone_found (false, rest) = ok ([], rest)

unfoldable pub date_time64_args : Parser ChType
date_time64_args s = do
  inner ← expect b'(' s
  (precision, after) ← parse_int inner
  (zone, last) ← zone_found (accept b',' after)
  rest ← expect b')' last
  ok (date_time64 precision zone, rest)

-- The bounds of a value of `Enum8`, or of `Enum16`.
unfoldable pub enum_fits : ℕ → ℤ → Bool
enum_fits bits v =
    if bits == 8
    then leb_ℤ (negsuc 127) v && leb_ℤ v (pos 127)
    else leb_ℤ (negsuc 32767) v && leb_ℤ v (pos 32767)

-- One round of the loop of `parseEnum`: a label and its value.
unfoldable pub enum_item : ℕ → Parser (Text × ℤ)
unfolding enum_fits
enum_item bits s = do
  (label, after) ← parse_string s
  value ← expect b'=' after
  (v, rest) ← parse_int value
  if enum_fits bits v then ok ((label, v), rest) else fail (enum_out_of_range bits v label) rest

-- The loop; it goes on behind a comma.
unfoldable pub enum_loop : ℕ → ℕ → Parser (List (Text × ℤ))
unfolding enum_item
enum_loop zero bits s = err out_of_fuel
enum_loop (suc fuel) bits s = enum_item bits s >>= λ (item, after).
    let (more, next) = accept b',' after in
    let others = enum_loop fuel bits next >>= λ (items, rest). ok (item ∷ items, rest) in
    if more then others else ok (item ∷ [], next)

-- `parseEnum(bits)`.
unfoldable pub enum_args : ℕ → ℕ → Parser ChType
unfolding enum_loop
enum_args fuel bits s = do
  inner ← expect b'(' s
  (items, after) ← enum_loop fuel bits inner
  rest ← expect b')' after
  ok (enum bits items, rest)

-- What follows a name shows that the name is the element's type: an opening parenthesis, a comma, or
-- a closing one.
abbrev pub ends_type : Text → Bool
ends_type [] = false
ends_type (c ∷ s) = c == b'(' || c == b',' || c == b')'

-- The element of a tuple whose first name and the text behind it were read from `save`.
unfoldable pub tuple_item :
    Parser ChType → Text → Text → Text → Result ParseError ((Text × ChType) × Text)
tuple_item rec save ident next =
    if not (ends_type next)
    then (rec next >>= λ (t, rest). ok ((ident, t), rest))
    else (rec save >>= λ (t, rest). ok (([], t), rest))

-- The loop of `parseTuple`; it goes on behind a comma.
unfoldable pub tuple_loop : Parser ChType → ℕ → Parser Elems
unfolding tuple_item
tuple_loop rec zero s = err out_of_fuel
tuple_loop rec (suc fuel) s = parse_ident s >>= λ (ident, behind).
    tuple_item rec s ident (skip_space behind) >>= λ ((name, t), after).
    let (more, next) = accept b',' after in
    let others = tuple_loop rec fuel next >>= λ (es, rest). ok (elem name t es, rest) in
    if more then others else ok (elem name t no_elems, next)

-- `parseTuple()`.
unfoldable pub tuple_args : Parser ChType → ℕ → Parser ChType
unfolding tuple_loop
tuple_args rec fuel s = do
  inner ← expect b'(' s
  (es, after) ← tuple_loop rec fuel inner
  rest ← expect b')' after
  ok (tuple es, rest)

-- `Map(K, V)` behind its name.
unfoldable pub map_args : Parser ChType → Parser ChType
map_args rec s = do
  inner ← expect b'(' s
  (k, after) ← rec inner
  second ← expect b',' after
  (v, last) ← rec second
  rest ← expect b')' last
  ok (map k v, rest)

-- A parsed argument as a type.
abbrev pub wrap {ℓ} :
    {A : Type ℓ} → (A → ChType) → Result ParseError (A × Text) → Result ParseError (ChType × Text)
wrap make r = r >>= λ (a, rest). ok (make a, rest)

-- The type of a name that no parenthesis follows.
unfoldable pub bare_type : Text → ChType
bare_type name =
    if eq name (codes "DateTime")
    then date_time []
    else if eq name (codes "DateTime64")
    then date_time64 (pos 3) []
    else scalar name

-- Any other name with arguments: kept as it is spelled from `start` on.
unfoldable pub unsupported_args : Text → Parser ChType
unsupported_args start s = skip_balanced s >>= λ rest. ok (unsupported (slice start rest), rest)

-- The switch on the name in front of a parenthesis.
unfoldable pub type_args : Parser ChType → ℕ → Text → Text → Parser ChType
unfolding decimal_args date_time64_args enum_args tuple_args map_args paren unsupported_args
type_args rec fuel start name s =
    if eq name (codes "Nullable")
    then wrap nullable (paren rec s)
    else if eq name (codes "LowCardinality")
    then wrap low_cardinality (paren rec s)
    else if eq name (codes "Array")
    then wrap array (paren rec s)
    else if eq name (codes "Map")
    then map_args rec s
    else if eq name (codes "FixedString")
    then wrap fixed_string (paren parse_int s)
    else if eq name (codes "Decimal")
    then decimal_args s
    else if eq name (codes "Decimal32")
    then wrap (decimal (pos 9)) (paren parse_int s)
    else if eq name (codes "Decimal64")
    then wrap (decimal (pos 18)) (paren parse_int s)
    else if eq name (codes "Decimal128")
    then wrap (decimal (pos 38)) (paren parse_int s)
    else if eq name (codes "Decimal256")
    then wrap (decimal (pos 76)) (paren parse_int s)
    else if eq name (codes "DateTime")
    then wrap date_time (paren parse_string s)
    else if eq name (codes "DateTime64")
    then date_time64_args s
    else if eq name (codes "Enum8")
    then enum_args fuel 8 s
    else if eq name (codes "Enum16")
    then enum_args fuel 16 s
    else if eq name (codes "Tuple")
    then tuple_args rec fuel s
    else unsupported_args start s

abbrev pub opens : Text → Bool
opens [] = false
opens (c ∷ s) = c == b'('

-- `parseType()` from `start` on, behind the name that was read there.
unfoldable pub type_named : Parser ChType → ℕ → Text → Text → Parser ChType
unfolding type_args bare_type
type_named rec fuel start name next =
    if opens next then type_args rec fuel start name next else ok (bare_type name, next)

-- `parseType()`.
unfoldable pub parse_type : ℕ → Parser ChType
unfolding type_named parse_ident skip_space
parse_type zero s = err out_of_fuel
parse_type (suc fuel) s =
    parse_ident s >>= λ (name, behind). type_named (parse_type fuel) fuel s name (skip_space behind)

-- `Parse(name)`.
abbrev pub whole : ChType → Text → Result ParseError ChType
whole t [] = ok t
whole t (c ∷ rest) = err (failed (trailing_text (c ∷ rest)) (c ∷ rest))

unfoldable pub parse : Text → Result ParseError ChType
unfolding parse_type
parse name = parse_type (suc (length name)) name >>= λ (t, rest). whole t (skip_space rest)
