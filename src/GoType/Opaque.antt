-- ===== src/GoType/Opaque.antt =====
-- `ParseOpaqueType` of internal/codegen/golang/gotype/types.go, with `IsImportPath` of
-- internal/codegen/golang/gotype/import_path.go.
use pggen.Prelude.{
  ℕ, zero, suc, Bool, true, false, not, ◌&&◌, ◌||◌, List, [], ◌∷◌, ◌++◌, Option, none, some, ◌==◌,
  if◌then◌else◌, map,
}
use pggen.Prelude.Result.{Result, ok, err, ◌>>=◌}
use pggen.Prelude.Text.{Text, codes, eq, contains, cut}
use pggen.GoType.{GoType, array_type, import_type, opaque_type, pointer_type, extract_short_package}

-- The errors; `panicked` is a read out of range.
pub data OpaqueError : Type 0 where
  no_closing_bracket : Text → OpaqueError
  not_an_import_path : Text → Text → OpaqueError
  not_an_array : Text → OpaqueError
  panicked : OpaqueError

-- The database type, as far as it is read: none, an array with its spelling, or another.
pub data SqlType : Type 0 where
  absent : SqlType
  array_named : Text → SqlType
  other_type : SqlType

abbrev pub std_packages : List Text
std_packages = map codes (
    "bufio" ∷ "bytes" ∷ "cmp" ∷ "context" ∷ "crypto" ∷ "embed" ∷ "encoding" ∷ "errors" ∷ "expvar"
    ∷ "flag" ∷ "fmt" ∷ "hash" ∷ "html" ∷ "image" ∷ "io" ∷ "iter" ∷ "log" ∷ "maps" ∷ "math" ∷ "mime"
    ∷ "net" ∷ "os" ∷ "path" ∷ "plugin" ∷ "reflect" ∷ "regexp" ∷ "runtime" ∷ "slices" ∷ "sort"
    ∷ "strconv" ∷ "strings" ∷ "structs" ∷ "sync" ∷ "syscall" ∷ "testing" ∷ "time" ∷ "unicode"
    ∷ "unique" ∷ "unsafe" ∷ "weak" ∷ [])

-- `strings.ContainsAny(s, "./")`.
abbrev pub has_dot_or_slash : Text → Bool
has_dot_or_slash [] = false
has_dot_or_slash (c ∷ s) = (c == b'.' || c == b'/') || has_dot_or_slash s

-- `IsImportPath(pkgPath)`.
unfoldable pub is_import_path : Text → Bool
unfolding contains
is_import_path path = has_dot_or_slash path || contains std_packages path

-- A depth that a closing bracket lowers, below zero too: brackets that are open, or closed in excess.
pub data Depth : Type 0 where
  opened : ℕ → Depth
  excess : ℕ → Depth

abbrev pub deeper : Depth → Depth
deeper (opened n) = opened (suc n)
deeper (excess zero) = opened 0
deeper (excess (suc n)) = excess n

abbrev pub shallower : Depth → Depth
shallower (opened zero) = excess 0
shallower (opened (suc n)) = opened n
shallower (excess n) = excess (suc n)

abbrev pub is_level : Depth → Bool
is_level (opened zero) = true
is_level _ = false

-- The loop of `lastDotOutsideBrackets`: the text in front of the dot and behind it.
unfoldable pub last_dot : Depth → Text → Option (Text × Text)
last_dot depth [] = none
last_dot depth (b ∷ s) =
    let depth' = if b == b'[' then deeper depth else if b == b']' then shallower depth else depth in
    elim (last_dot depth' s) [
      | some (before, after) ↦ some (b ∷ before, after)
      | none ↦ if b == b'.' && is_level depth then some ([], s) else none
    ]

-- `strings.TrimSuffix(s, "]")`.
unfoldable pub trim_bracket : Text → Text
trim_bracket [] = []
trim_bracket (c ∷ []) = if c == b']' then [] else c ∷ []
trim_bracket (c ∷ d ∷ s) = c ∷ trim_bracket (d ∷ s)

-- The name of a generic type, with the package of its argument shortened.
unfoldable pub shorten_argument : Text → Result OpaqueError Text
unfolding cut last_dot trim_bracket extract_short_package
shorten_argument name = elim (cut name b'[') [
  | none ↦ ok name
  | some (generic, argument) ↦ elim (last_dot (opened 0) (trim_bracket argument)) [
    | none ↦ ok name
    | some (inner_pkg, inner_name) ↦ elim (extract_short_package inner_pkg) [
      | none ↦ err panicked
      | some short ↦ ok (generic ++ b'[' ∷ (short ++ b'.' ∷ (inner_name ++ b']' ∷ [])))
    ]
  ]
]

-- The named type, behind the brackets and the star.
unfoldable pub named_type : Text → Text → Result OpaqueError GoType
unfolding last_dot shorten_argument is_import_path
named_type qual_type bs = elim (last_dot (opened 0) bs) [
  | none ↦ shorten_argument bs >>= λ name. ok (opaque_type name)
  | some (pkg, tail) ↦ shorten_argument tail >>= λ name.
      if not (is_import_path pkg)
      then err (not_an_import_path pkg qual_type)
      else ok (import_type pkg (opaque_type name))
]

unfoldable pub pointed_type : Text → Text → Result OpaqueError GoType
unfolding named_type
pointed_type qual_type [] = err panicked
pointed_type qual_type (c ∷ bs) =
    if c == b'*'
    then (named_type qual_type bs >>= λ t. ok (pointer_type t))
    else named_type qual_type (c ∷ bs)

-- The slice of an element type; `IsByteSlice` makes the one exception.
unfoldable pub slice_type : Text → SqlType → GoType → Result OpaqueError GoType
unfolding eq
slice_type qual_type (array_named name) elem = ok (array_type name elem)
slice_type qual_type absent elem = ok (array_type [] elem)
slice_type qual_type other_type elem =
    if eq qual_type (codes "[]byte") then ok (array_type [] elem) else err (not_an_array qual_type)

-- `ParseOpaqueType(qualType, sqlType)`.
unfoldable pub parse_opaque_type : Text → SqlType → Result OpaqueError GoType
unfolding pointed_type slice_type
parse_opaque_type [] sql_type = err panicked
parse_opaque_type (c ∷ []) sql_type =
    if c == b'[' then err panicked else pointed_type (c ∷ []) (c ∷ [])
parse_opaque_type (c ∷ d ∷ bs) sql_type =
    if c == b'['
    then (if not (d == b']')
        then err (no_closing_bracket (c ∷ d ∷ bs))
        else (pointed_type (c ∷ d ∷ bs) bs >>= λ t. slice_type (c ∷ d ∷ bs) sql_type t))
    else pointed_type (c ∷ d ∷ bs) (c ∷ d ∷ bs)
