-- ===== src/GoType/Imports.antt =====
-- internal/codegen/golang/import_set.go: the packages that a generated file imports.
pub mod Closure
pub mod Sorted
use pggen.Prelude.{
  ℕ, zero, suc, ◌+◌, Bool, true, false, not, ◌&&◌, ◌||◌, List, [], ◌∷◌, ◌++◌, Option, none, some,
  ◌==◌, ltb, if◌then◌else◌, map,
}
use pggen.Prelude.Text.{Text, eq, contains, is_empty}
use pggen.GoType.{GoType, import_type, walk, extract_short_package}

-- `AddPackage(p)`, on the keys of the set.
unfoldable pub add_package : Text → List Text → List Text
unfolding contains
add_package p set = if contains set p then set else set ++ p ∷ []

-- The function that `AddType` walks a type with.
unfoldable pub add_import : List Text → GoType → List Text × Bool
unfolding add_package
add_import set (import_type pkg t) = (add_package pkg set, true)
add_import set _ = (set, true)

-- `AddType(typ)`.
unfoldable pub add_type : List Text → GoType → List Text
unfolding walk add_import
add_type set t = walk add_import set t

-- The order of strings.
unfoldable pub before : Text → Text → Bool
before [] t = true
before (c ∷ s) [] = false
before (c ∷ s) (d ∷ t) = let later = before s t in if c == d then later else ltb c d

-- `sort.Strings`.
unfoldable pub insert : Text → List Text → List Text
unfolding before
insert p [] = p ∷ []
insert p (q ∷ qs) = let later = insert p qs in if before p q then p ∷ q ∷ qs else q ∷ later

unfoldable pub sort_strings : List Text → List Text
unfolding insert
sort_strings [] = []
sort_strings (p ∷ ps) = insert p (sort_strings ps)

-- The packages of the set that are not empty.
unfoldable pub nonempty_packages : List Text → List Text
nonempty_packages [] = []
nonempty_packages (p ∷ ps) =
    let rest = nonempty_packages ps in if is_empty p then rest else p ∷ rest

-- `SortedPackages()`.
unfoldable pub sorted_packages : List Text → List Text
unfolding sort_strings nonempty_packages
sorted_packages set = sort_strings (nonempty_packages set)

-- `byShort[short] = append(byShort[short], pkg)`.
unfoldable pub append_short : Text → Text → List (Text × List Text) → List (Text × List Text)
unfolding eq
append_short short pkg [] = (short, pkg ∷ []) ∷ []
append_short short pkg ((s, paths) ∷ groups) =
    if eq s short
    then (s, paths ++ pkg ∷ []) ∷ groups
    else (s, paths) ∷ append_short short pkg groups

-- The first loop of `SortedImports`; `none` is a panic of `ExtractShortPackage`.
unfoldable pub group_by_short :
    List Text → List (Text × List Text) → Option (List (Text × List Text))
unfolding append_short extract_short_package
group_by_short [] groups = some groups
group_by_short (pkg ∷ pkgs) groups = elim (extract_short_package pkg) [
  | none ↦ none
  | some short ↦ group_by_short pkgs (append_short short pkg groups)
]

-- `strings.Repeat("_", i)`.
abbrev pub underscores : ℕ → Text
underscores zero = []
underscores (suc i) = b'_' ∷ underscores i

-- The paths of one group behind its first, and their aliases.
abbrev pub group_aliases : Text → ℕ → List Text → List (Text × Text)
group_aliases short i [] = []
group_aliases short i (path ∷ paths) =
    (path, short ++ underscores i) ∷ group_aliases short (suc i) paths

abbrev pub aliases_of : List (Text × List Text) → List (Text × Text)
aliases_of [] = []
aliases_of ((short, []) ∷ groups) = aliases_of groups
aliases_of ((short, first ∷ paths) ∷ groups) = group_aliases short 1 paths ++ aliases_of groups

-- A read of a map of strings, empty for a key that it lacks.
unfoldable pub alias_of : List (Text × Text) → Text → Text
unfolding eq
alias_of [] pkg = []
alias_of ((path, alias) ∷ aliases) pkg = if eq path pkg then alias else alias_of aliases pkg

-- `ImportPkg`.
pub record ImportPkg : Type 0 where
  pub pkg_path : Text
  pub alias : Text

-- `FormatImport()`.
unfoldable pub format_import : ImportPkg → Text
format_import ip =
    if is_empty ip.alias
    then b'"' ∷ (ip.pkg_path ++ b'"' ∷ [])
    else ip.alias ++ (b' ' ∷ b'"' ∷ (ip.pkg_path ++ b'"' ∷ []))

abbrev pub with_aliases : List (Text × Text) → List Text → List ImportPkg
with_aliases aliases [] = []
with_aliases aliases (pkg ∷ pkgs) =
    record { pkg_path = pkg; alias = alias_of aliases pkg } ∷ with_aliases aliases pkgs

-- `SortedImports()`.
unfoldable pub sorted_imports : List Text → Option (List ImportPkg)
unfolding sorted_packages group_by_short alias_of
sorted_imports set =
    let pkgs = sorted_packages set in
    elim (group_by_short pkgs []) [
      | none ↦ none
      | some groups ↦ some (with_aliases (aliases_of groups) pkgs)
    ]
