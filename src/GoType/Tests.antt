-- ===== src/GoType/Tests.antt =====
-- Runs of the functions on Go types, and the theorems about them at concrete inputs.
use mathlib.Core.Path.{subst}
use pggen.Prelude.{◌≡◌, refl, true, [], ◌∷◌, some, arith, if◌then◌else◌}
use pggen.Prelude.Result.{ok, err}
use pggen.Prelude.Text.{Text, codes, eq, eq_iff, contains}
use pggen.GoType.{
  GoType, array_type, map_type, import_type, opaque_type, pointer_type, extract_short_package,
  short_of, split_on, qualify_type, base_name,
}
use pggen.GoType.Imports.{
  add_type, before, insert, sort_strings, nonempty_packages, sorted_packages, group_by_short,
  append_short, alias_of, sorted_imports,
}
use pggen.GoType.Imports.Closure.{imports_of, contains-add_type, qualify_type-add_type}
use pggen.GoType.Opaque.{array_named, absent, panicked, parse_opaque_type, is_import_path}
use pggen.GoType.Written.{parse_opaque_type-written}

-- `map[string]*time.Time`.
abbrev times : GoType
times =
    map_type [] (opaque_type (codes "string"))
      (pointer_type (import_type (codes "time") (opaque_type (codes "Time"))))

abbrev no_alias : Text → Text
no_alias p = []

qualify_type-times : qualify_type [] no_alias times ≡ some (codes "map[string]*time.Time")
unfolding qualify_type base_name extract_short_package short_of split_on eq
qualify_type-times = refl

-- A map of aliases that has one for a package that the type does not name.
abbrev other_alias : Text → Text
other_alias p = if eq p (codes "fmt") then codes "fmt_" else []

time_alias : other_alias (codes "time") ≡ []
unfolding eq
time_alias = refl

other_alias-agree : (p : Text) → contains (add_type [] times) p ≡ true → other_alias p ≡ no_alias p
unfolding contains imports_of
other_alias-agree p h =
    let named : eq (codes "time") p ≡ true = ground (arith, h, contains-add_type [] times p) in
    subst (λ p. other_alias p ≡ []) ((eq_iff (codes "time") p).0 named) time_alias

qualify_type-add_type_example : qualify_type [] other_alias times ≡ qualify_type [] no_alias times
qualify_type-add_type_example =
    qualify_type-add_type [] other_alias no_alias times other_alias-agree

-- Three packages, of which the last is known by the alias that the second is given.
sorted_imports-collision :
    sorted_imports (codes "a/foo" ∷ codes "b/foo" ∷ codes "c/foo_" ∷ [])
    ≡ some (
        record { pkg_path = codes "a/foo"; alias = [] }
        ∷ record { pkg_path = codes "b/foo"; alias = codes "foo_" }
        ∷ record { pkg_path = codes "c/foo_"; alias = [] }
        ∷ [])
unfolding sorted_imports sorted_packages sort_strings insert before nonempty_packages group_by_short
    append_short alias_of extract_short_package short_of split_on eq
sorted_imports-collision = refl

extract_short_package-version :
    extract_short_package (codes "github.com/jackc/pgx/v5") ≡ some (codes "pgx")
unfolding extract_short_package short_of split_on
extract_short_package-version = refl

parse_opaque_type-no_bracket : parse_opaque_type (codes "[") absent ≡ err panicked
unfolding parse_opaque_type
parse_opaque_type-no_bracket = refl

parse_opaque_type-written_example :
    parse_opaque_type (codes "[]*github.com/x/pgtype.UUID") (array_named (codes "_uuid"))
    ≡ ok (
        array_type
          (codes "_uuid")
          (pointer_type (import_type (codes "github.com/x/pgtype") (opaque_type (codes "UUID")))))
unfolding is_import_path
parse_opaque_type-written_example =
    parse_opaque_type-written true true (some (codes "github.com/x/pgtype")) (codes "UUID")
      (codes "_uuid") (ground arith, refl) (ground arith) (cc)
