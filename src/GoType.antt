-- ===== src/GoType.antt =====
-- internal/codegen/golang/gotype/types.go: the Go types of the generated code, and how they are spelled.
pub mod Imports
pub mod Opaque
pub mod Written
mod Tests
use pggen.Prelude.{
  ℕ, zero, suc, ◌+◌, Bool, true, false, not, ◌&&◌, ◌||◌, List, [], ◌∷◌, ◌++◌, Option, none, some,
  ◌==◌, leb, if◌then◌else◌, length,
}
use pggen.Prelude.Text.{Text, codes, eq, contains, is_empty}

mutual
  pub data GoType : Type 0 where
    array_type : Text → GoType → GoType
    map_type : Text → GoType → GoType → GoType
    composite_type : Text → List Text → Text → List Text → GoTypes → GoType
    enum_type : Text → Text → List Text → List Text → GoType
    import_type : Text → GoType → GoType
    opaque_type : Text → GoType
    pointer_type : GoType → GoType
    void_type : GoType

  -- The types of a composite's fields.
  pub data GoTypes : Type 0 where
    no_types : GoTypes
    next_type : GoType → GoTypes → GoTypes

-- `Import()`.
abbrev pub import_of : GoType → Text
import_of (import_type pkg t) = pkg
import_of _ = []

-- `BaseName()`.
unfoldable pub base_name : GoType → Text
base_name (array_type sql elem) = codes "[]" ++ base_name elem
base_name (map_type sql key val) = codes "map[" ++ (base_name key ++ (codes "]" ++ base_name val))
base_name (composite_type sql columns name fields types) = name
base_name (enum_type sql name labels values) = name
base_name (import_type pkg t) = base_name t
base_name (opaque_type name) = name
base_name (pointer_type elem) = b'*' ∷ base_name elem
base_name void_type = []

-- `bytes.Split(s, sep)` at a separator of one byte; `part` is the part that is being read.
unfoldable pub split_on : ℕ → Text → Text → List Text
split_on sep part [] = part ∷ []
split_on sep part (c ∷ s) =
    let inside = split_on sep (part ++ c ∷ []) s in
    let next = split_on sep [] s in if c == sep then part ∷ next else inside

abbrev pub all_digits : Text → Bool
all_digits [] = true
all_digits (c ∷ s) = (leb b'0' c && leb c b'9') && all_digits s

-- `majorVersionRegexp.Match(part)`: a `v` and then digits, one at least.
abbrev pub is_major_version : Text → Bool
is_major_version [] = false
is_major_version (c ∷ s) = c == b'v' && (not (is_empty s) && all_digits s)

-- The last part of a path, or the part in front of a major version; `none` is a panic.
unfoldable pub short_of : List Text → Option Text
short_of [] = none
short_of (p ∷ []) = if is_major_version p then none else some p
short_of (p ∷ q ∷ []) = if is_major_version q then some p else some q
short_of (p ∷ q ∷ r ∷ ps) = short_of (q ∷ r ∷ ps)

-- `ExtractShortPackage(pkgPath)`.
unfoldable pub extract_short_package : Text → Option Text
unfolding short_of split_on
extract_short_package path = short_of (split_on b'/' [] path)

-- The name of a type of another package. An alias that the map lacks is empty.
unfoldable pub qualified : Text → Text → Text → Option Text
unfolding extract_short_package
qualified name pkg alias =
    if is_empty alias
    then elim (extract_short_package pkg) [ none ↦ none | some short ↦ some (short ++ b'.' ∷ name) ]
    else some (alias ++ b'.' ∷ name)

-- The part of `QualifyType` behind its switch.
unfoldable pub qualify_leaf : Text → Text → Text → (Text → Text) → Option Text
unfolding qualified eq
qualify_leaf name pkg other aliases =
    if is_empty pkg || eq pkg other then some name else qualified name pkg (aliases pkg)

abbrev pub with_prefix : Text → Option Text → Option Text
with_prefix p none = none
with_prefix p (some s) = some (p ++ s)

abbrev pub map_spelling : Option Text → Option Text → Option Text
map_spelling (some key) (some val) = some (codes "map[" ++ (key ++ (codes "]" ++ val)))
map_spelling _ _ = none

-- `QualifyType(typ, otherPkgPath, aliases)`; `none` is a panic.
unfoldable pub qualify_type : Text → (Text → Text) → GoType → Option Text
unfolding qualify_leaf base_name
qualify_type other aliases (map_type sql key val) =
    map_spelling (qualify_type other aliases key) (qualify_type other aliases val)
qualify_type other aliases (array_type sql elem) =
    with_prefix (codes "[]") (qualify_type other aliases elem)
qualify_type other aliases (pointer_type elem) =
    with_prefix (codes "*") (qualify_type other aliases elem)
qualify_type other aliases (composite_type sql columns name fields types) =
    qualify_leaf name [] other aliases
qualify_type other aliases (enum_type sql name labels values) = qualify_leaf name [] other aliases
qualify_type other aliases (import_type pkg t) = qualify_leaf (base_name t) pkg other aliases
qualify_type other aliases (opaque_type name) = qualify_leaf name [] other aliases
qualify_type other aliases void_type = qualify_leaf [] [] other aliases

-- `Walk(typ, fn)`, where `fn` changes a state and says whether to go on below the type.
module _ {ℓ} {S : Type ℓ} (fn : S → GoType → S × Bool) where
  unfoldable mutual
    pub walk : S → GoType → S
    walk st (import_type pkg t) =
        let (st', on) = fn st (import_type pkg t) in
        let below = walk st' t in if on then below else st'
    walk st (composite_type sql columns name fields types) =
        let (st', on) = fn st (composite_type sql columns name fields types) in
        let below = walk_all st' types in if on then below else st'
    walk st (map_type sql key val) =
        let (st', on) = fn st (map_type sql key val) in
        let below = walk (walk st' key) val in if on then below else st'
    walk st (array_type sql elem) =
        let (st', on) = fn st (array_type sql elem) in
        let below = walk st' elem in if on then below else st'
    walk st (pointer_type elem) =
        let (st', on) = fn st (pointer_type elem) in
        let below = walk st' elem in if on then below else st'
    walk st (enum_type sql name labels values) = (fn st (enum_type sql name labels values)).0
    walk st (opaque_type name) = (fn st (opaque_type name)).0
    walk st void_type = (fn st void_type).0

    pub walk_all : S → GoTypes → S
    walk_all st no_types = st
    walk_all st (next_type t ts) = walk_all (walk st t) ts

-- `UnwrapNestedType(typ)`.
unfoldable pub unwrap_nested_type : GoType → GoType
unwrap_nested_type (import_type pkg t) = unwrap_nested_type t
unwrap_nested_type (pointer_type elem) = unwrap_nested_type elem
unwrap_nested_type t = t
