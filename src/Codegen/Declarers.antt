-- ===== src/Codegen/Declarers.antt =====
-- The declarers of internal/codegen/golang (declarer.go, declarer_composite.go, declarer_enum.go,
-- declarer_registration.go): what a generated package declares beside its queries. The text of
-- substituteIdentifiers, a constant, is left out.
pub mod Declare
use pggen.Prelude.{
  ℕ, suc, ◌-◌, ◌+◌, Bool, true, false, not, ◌||◌, List, [], ◌∷◌, ◌++◌, Option, none, some,
  if◌then◌else◌,
}
use pggen.Prelude.Text.{Text, codes, eq, is_empty, contains, byte_length}
use pggen.GoType.{
  GoType, GoTypes, no_types, next_type, array_type, composite_type, enum_type, opaque_type,
  import_type, pointer_type, walk, qualify_type,
}
use pggen.GoType.Imports.{before, sort_strings}
use pggen.Codegen.Emit.{concat, padded, spaces, longest}
use pggen.Codegen.Shared.{SharedRow}

pub data Declarer : Type 0 where
  composite_declarer :
      (sql : Text) (columns : List Text) (name : Text) (fields : List Text) → GoTypes → Declarer
  enum_declarer : (sql name : Text) (labels values : List Text) → Declarer
  identifier_declarer : Declarer
  registration_declarer : (names : List Text) → Declarer
  shared_row_declarer : SharedRow → Declarer

-- `DedupeKey()`.
abbrev pub dedupe_key : Declarer → Text
dedupe_key (composite_declarer sql columns name fields types) = codes "composite::" ++ name
dedupe_key (enum_declarer sql name labels values) = codes "enum_type::" ++ name
dedupe_key identifier_declarer = codes "func::02_substitute_identifiers"
dedupe_key (registration_declarer names) = codes "type_registration"
dedupe_key (shared_row_declarer row) = codes "row_struct::" ++ row.name

-- `d[decl.DedupeKey()] = decl`.
unfoldable pub add_declarer : Declarer → List Declarer → List Declarer
unfolding eq
add_declarer decl [] = decl ∷ []
add_declarer decl (d ∷ ds) =
    let later = add_declarer decl ds in
    if eq (dedupe_key d) (dedupe_key decl) then decl ∷ ds else d ∷ later

-- `AddAll(decls...)`.
unfoldable pub add_all : List Declarer → List Declarer → List Declarer
unfolding add_declarer
add_all set [] = set
add_all set (d ∷ ds) = add_all (add_declarer d set) ds

-- `ListAll()`, in the order of the keys.
unfoldable pub insert_declarer : Declarer → List Declarer → List Declarer
unfolding before
insert_declarer decl [] = decl ∷ []
insert_declarer decl (d ∷ ds) =
    let later = insert_declarer decl ds in
    if before (dedupe_key decl) (dedupe_key d) then decl ∷ d ∷ ds else d ∷ later

unfoldable pub list_all : List Declarer → List Declarer
unfolding insert_declarer
list_all [] = []
list_all (d ∷ ds) = insert_declarer d (list_all ds)

-- The names of the switch of `IsPgxSupportedArray`.
abbrev pub supported_names : List Text
supported_names =
    codes "string"
    ∷ codes "byte"
    ∷ codes "rune"
    ∷ codes "int"
    ∷ codes "int16"
    ∷ codes "int32"
    ∷ codes "int64"
    ∷ codes "uint"
    ∷ codes "uint16"
    ∷ codes "uint32"
    ∷ codes "uint64"
    ∷ codes "float32"
    ∷ codes "float64"
    ∷ codes "time.Time"
    ∷ []

abbrev pub supported_leaf : Text → GoType → Bool
supported_leaf pkg (opaque_type name) =
    contains supported_names (if is_empty pkg then name else pkg ++ b'.' ∷ name)
supported_leaf pkg _ = false

abbrev pub supported_import : GoType → Bool
supported_import (import_type pkg t) = supported_leaf pkg t
supported_import t = supported_leaf [] t

-- `IsPgxSupportedArray(typ)`, on the type of the elements.
abbrev pub is_pgx_supported_array : GoType → Bool
is_pgx_supported_array (pointer_type elem) = supported_import elem
is_pgx_supported_array elem = supported_import elem

-- The function that `FindDeclarers` walks a type with.
unfoldable pub find_declarer : List Declarer → GoType → List Declarer × Bool
unfolding add_declarer contains
find_declarer set (composite_type sql columns name fields types) =
    (add_declarer (composite_declarer sql columns name fields types) set, true)
find_declarer set (enum_type sql name labels values) =
    (add_declarer (enum_declarer sql name labels values) set, true)
find_declarer set (array_type sql elem) = (set, not (is_pgx_supported_array elem))
find_declarer set _ = (set, true)

-- `FindDeclarers(typ)`.
unfoldable pub find_declarers : GoType → List Declarer
unfolding walk find_declarer
find_declarers t = walk find_declarer [] t

-- The function that `collectPgTypeNames` walks a type with.
unfoldable pub collect_name : Text → List Text → List Text
unfolding contains
collect_name name names = if is_empty name || contains names name then names else names ++ name ∷ []

unfoldable pub collect_type : List Text → GoType → List Text × Bool
unfolding collect_name
collect_type names (composite_type sql columns name fields types) = (collect_name sql names, true)
collect_type names (enum_type sql name labels values) = (collect_name sql names, true)
collect_type names (array_type sql elem) = (collect_name sql names, true)
collect_type names _ = (names, true)

-- `collectPgTypeNames(typ, names)`.
unfoldable pub collect_pg_type_names : GoType → List Text → List Text
unfolding walk collect_type
collect_pg_type_names t names = walk collect_type names t

-- The loop that qualifies the types of the fields; `none` is a panic.
abbrev pub push_type : Option Text → Option (List Text) → Option (List Text)
push_type (some t) (some ts) = some (t ∷ ts)
push_type _ _ = none

unfoldable pub qualify_fields : Text → GoTypes → Option (List Text)
unfolding qualify_type
qualify_fields pkg no_types = some []
qualify_fields pkg (next_type t ts) =
    push_type (qualify_type pkg (λ p. []) t) (qualify_fields pkg ts)

-- `NewTypeRegistrationDeclarer(names)`.
unfoldable pub new_type_registration : List Text → Declarer
unfolding sort_strings
new_type_registration names = registration_declarer (sort_strings names)
