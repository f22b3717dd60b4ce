-- ===== src/Paginate/Spec.antt =====
-- Sort specifications: their data, and `parseSortSpec` with what it checks.
use pggen.Prelude.{
  ℕ, suc, ◌-◌, Bool, true, false, ◌||◌, List, [], ◌∷◌, ◌++◌, Option, none, some, ◌==◌,
  if◌then◌else◌,
}
use pggen.Prelude.Result.{Result, ok, err, ◌>>=◌}
use pggen.Prelude.Text.{
  Text, codes, eq, trim_left, trim_space, cut_prefix, has_prefix, cut, contains,
}

pub record SortKey : Type 0 where
  pub name : Text
  pub columns : List Text
  pub nullable : List Text

-- The cursor map is a list of its bindings, a column at most once, in the order they were made.
pub record SortSpec : Type 0 where
  pub name : Text
  pub keys : List SortKey
  pub default_by : List Text
  pub cursor : List (Text × Text)
  pub tiebreak : Text

-- The errors of `parseSortSpec` and `collectSortSpecs`, with what their messages name.
pub data SpecError : Type 0 where
  malformed_key malformed_binding : Text → SpecError
  no_key no_default : SpecError
  only_leading_nullable : Text → Text → SpecError
  no_binding : Text → SpecError
  not_a_parameter not_nullable : Text → Text → SpecError
  duplicate_spec : Text → SpecError

-- `IsKeyset()`.
unfoldable pub is_keyset : SortSpec → Bool
is_keyset spec = elim spec.cursor [ [] ↦ false | b ∷ bindings ↦ true ]

-- `IsNullable(col)`.
unfoldable pub is_nullable_column : SortKey → Text → Bool
unfolding contains
is_nullable_column key col = contains key.nullable col

-- A read of the map `Cursor`.
unfoldable pub binding_of : Text → List (Text × Text) → Option Text
unfolding eq
binding_of col [] = none
binding_of col ((c, arg) ∷ bindings) = if eq c col then some arg else binding_of col bindings

-- An assignment to the map `Cursor`.
unfoldable pub bind_column : Text → Text → List (Text × Text) → List (Text × Text)
unfolding eq
bind_column col arg [] = (col, arg) ∷ []
bind_column col arg ((c, a) ∷ bindings) =
    let rest = bind_column col arg bindings in
    if eq c col then (c, arg) ∷ bindings else (c, a) ∷ rest

-- `flush` of `splitTerms`.
unfoldable pub flush_term : Text → List Text → List Text
unfolding trim_space
flush_term term out = elim (trim_space term) [ [] ↦ out | c ∷ p ↦ out ++ (c ∷ p) ∷ [] ]

-- The loop of `splitTerms`; `term` is `s[start:i]`.
unfoldable pub term_loop : ℕ → Text → Text → List Text → List Text
unfolding flush_term
term_loop depth term [] out = flush_term term out
term_loop depth term (c ∷ s) out =
    let longer = term ++ c ∷ [] in
    let deeper = term_loop (suc depth) longer s out in
    let higher = term_loop (depth - 1) longer s out in
    let ended = term_loop depth [] s (flush_term term out) in
    let same = term_loop depth longer s out in
    if c == b'(' || c == b'{'
    then deeper
    else if c == b')' || c == b'}'
    then higher
    else if c == b','
    then (if depth == 0 then ended else same)
    else same

-- `splitTerms(s)`.
unfoldable pub split_terms : Text → List Text
unfolding term_loop
split_terms s = term_loop 0 [] s []

-- `stripComment(text)`.
unfoldable pub strip_comment : Text → Text
unfolding trim_space trim_left
strip_comment text = trim_space (trim_left (λ c. c == b'-') (trim_space text))

-- `sortBlockName(lines)`.
unfoldable pub sort_block_name : List Text → Option Text
unfolding cut_prefix trim_space
sort_block_name [] = none
sort_block_name (l ∷ lines) = elim (cut_prefix l (codes "sort:")) [
  | some rest ↦ some (trim_space rest)
  | none ↦ sort_block_name lines
]

-- The pairs of a `cursor:` line.
unfoldable pub bind_pairs : List Text → List (Text × Text) → Result SpecError (List (Text × Text))
unfolding cut trim_space bind_column
bind_pairs [] bindings = ok bindings
bind_pairs (pair ∷ pairs) bindings = elim (cut pair b'=') [
  | none ↦ err (malformed_binding pair)
  | some (col, arg) ↦ bind_pairs pairs (bind_column (trim_space col) (trim_space arg) bindings)
]

abbrev pub key_of : Text → Option (Text × Text) → Result SpecError SortKey
key_of line none = err (malformed_key line)
key_of line (some (name, cols)) =
    ok (record { name = trim_space name; columns = split_terms cols; nullable = [] })

-- What the loop of `parseSortSpec` keeps: the specification, and the columns of the `nullable:` lines.
abbrev pub Lines : Type 0
Lines = SortSpec × List Text

-- One line of a block, by the case of the switch that it meets.
unfoldable pub read_line : Text → Lines → Result SpecError Lines
unfolding has_prefix cut_prefix cut trim_space split_terms bind_pairs
read_line l (spec, nullable) = elim (cut_prefix l (codes "sort:")) [
  | some _ ↦ ok (spec, nullable)
  | none ↦ elim (cut_prefix l (codes "key ")) [
    | some rest ↦ key_of l (cut rest b':') >>= λ key. ok (
      record {
        name = spec.name;
        keys = spec.keys ++ key ∷ [];
        default_by = spec.default_by;
        cursor = spec.cursor;
        tiebreak = spec.tiebreak;
      },
      nullable,
    )
    | none ↦ elim (cut_prefix l (codes "nullable:")) [
      | some rest ↦ ok (spec, nullable ++ split_terms rest)
      | none ↦ elim (cut_prefix l (codes "tiebreak:")) [
        | some rest ↦ ok (
          record {
            name = spec.name;
            keys = spec.keys;
            default_by = spec.default_by;
            cursor = spec.cursor;
            tiebreak = trim_space rest;
          },
          nullable,
        )
        | none ↦ elim (cut_prefix l (codes "default:")) [
          | some rest ↦ ok (
            record {
              name = spec.name;
              keys = spec.keys;
              default_by = split_terms rest;
              cursor = spec.cursor;
              tiebreak = spec.tiebreak;
            },
            nullable,
          )
          | none ↦ elim (cut_prefix l (codes "cursor:")) [
            | some rest ↦ bind_pairs (split_terms rest) spec.cursor >>= λ bindings. ok (
              record {
                name = spec.name;
                keys = spec.keys;
                default_by = spec.default_by;
                cursor = bindings;
                tiebreak = spec.tiebreak;
              },
              nullable,
            )
            | none ↦ ok (spec, nullable)
          ]
        ]
      ]
    ]
  ]
]

unfoldable pub read_lines : List Text → Lines → Result SpecError Lines
unfolding read_line
read_lines [] st = ok st
read_lines (l ∷ lines) st = read_line l st >>= λ st'. read_lines lines st'

-- The columns of a key that the `nullable:` lines name.
unfoldable pub nullable_columns : List Text → List Text → List Text
unfolding contains
nullable_columns nullable [] = []
nullable_columns nullable (col ∷ cols) =
    let rest = nullable_columns nullable cols in if contains nullable col then col ∷ rest else rest

-- `validateNullable`, on the columns behind the leading one.
unfoldable pub validate_rest : SortKey → List Text → Result SpecError (Unit {0})
unfolding is_nullable_column
validate_rest key [] = ok tt
validate_rest key (col ∷ cols) =
    let rest = validate_rest key cols in
    if is_nullable_column key col then err (only_leading_nullable key.name col) else rest

unfoldable pub validate_columns : SortKey → List Text → Result SpecError (Unit {0})
unfolding validate_rest
validate_columns key [] = ok tt
validate_columns key (lead ∷ cols) = validate_rest key cols

unfoldable pub validate_nullable : SortKey → Result SpecError (Unit {0})
unfolding validate_columns
validate_nullable key = validate_columns key key.columns
