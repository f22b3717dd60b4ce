-- ===== src/Paginate/Tests.antt =====
-- Runs of the functions on sort specifications, and the theorems about them at concrete inputs.
use pggen.Prelude.{
  ℕ, ◌≡◌, refl, inr, true, List, [], ◌∷◌, Option, none, some, length, if◌then◌else◌,
}
use pggen.Prelude.Result.{ok, err}
use pggen.Prelude.Text.{Text, codes, eq, cut, cut_prefix, has_prefix, contains, trim_space}
use pggen.Paginate.Spec.{SortSpec, only_leading_nullable}
use pggen.Paginate.Check.{parse_sort_spec}
use pggen.Paginate.Predicate.{arg, order_by_clause, keyset_predicate}
use pggen.Paginate.Meaning.{eval, keeps, render}
use pggen.Paginate.After.{after, values_of}
use pggen.Paginate.Keyset.{condition, keyset_predicate-after}
use pggen.Paginate.Sound.{IsSpec, parse_sort_spec-IsSpec}

abbrev block : List Text
block =
    codes "sort: s"
    ∷ codes "key day: COALESCE(a, b), id"
    ∷ codes "nullable: COALESCE(a, b)"
    ∷ codes "default: id"
    ∷ codes "cursor: COALESCE(a, b) = day, id = last_id"
    ∷ []

abbrev spec : SortSpec
spec = record {
  name = codes "s";
  keys =
      record {
        name = codes "day";
        columns = codes "COALESCE(a, b)" ∷ codes "id" ∷ [];
        nullable = codes "COALESCE(a, b)" ∷ [];
      }
      ∷ [];
  default_by = codes "id" ∷ [];
  cursor = (codes "COALESCE(a, b)", codes "day") ∷ (codes "id", codes "last_id") ∷ [];
  tiebreak = [];
}

parse_sort_spec-block : parse_sort_spec (codes "s") block ≡ ok spec
unfolding parse_sort_spec eq cut cut_prefix has_prefix contains trim_space
parse_sort_spec-block = refl

parse_sort_spec-nullable :
    parse_sort_spec
      (codes "s")
      (codes "key day: a, b" ∷ codes "nullable: b" ∷ codes "default: a" ∷ codes "cursor: a=x" ∷ [])
    ≡ err (only_leading_nullable (codes "day") (codes "b"))
unfolding parse_sort_spec eq cut cut_prefix has_prefix contains trim_space
parse_sort_spec-nullable = refl

keyset_predicate-spec :
    keyset_predicate spec (codes "a" ∷ []) [] true
    ≡ codes "(a < pggen.arg('')\n        OR (pggen.arg('') IS NULL))"
unfolding keyset_predicate eq contains
keyset_predicate-spec = refl

order_by_clause-keyset :
    order_by_clause (codes "a" ∷ codes "id" ∷ []) (codes "a" ∷ []) true true
    ≡ codes "a DESC NULLS FIRST, id DESC"
unfolding order_by_clause eq contains
order_by_clause-keyset = refl

-- A row and a cursor whose values are the lengths of their names.
abbrev lengths : Text → Option ℕ
lengths t = some (length t)

-- A row whose columns are 1, on the first page.
abbrev first_page : Text → Option ℕ
first_page t = if has_prefix t (codes "pggen.arg") then none else some 1

parse_sort_spec-IsSpec_example : IsSpec spec
parse_sort_spec-IsSpec_example = parse_sort_spec-IsSpec (codes "s") block parse_sort_spec-block

keyset_predicate-after_example :
    (keyset_predicate spec
        (codes "COALESCE(a, b)" ∷ codes "id" ∷ [])
        (codes "COALESCE(a, b)" ∷ [])
        true
      ≡ render (
          condition spec
            (codes "COALESCE(a, b)")
            (codes "id" ∷ [])
            (codes "COALESCE(a, b)" ∷ [])
            true))
    × (keeps (
          eval lengths (
            condition spec
              (codes "COALESCE(a, b)")
              (codes "id" ∷ [])
              (codes "COALESCE(a, b)" ∷ [])
              true))
        ≡ after true (values_of lengths (arg spec) (codes "COALESCE(a, b)" ∷ codes "id" ∷ [])))
keyset_predicate-after_example =
    keyset_predicate-after spec (codes "COALESCE(a, b)") (codes "id" ∷ [])
      (codes "COALESCE(a, b)" ∷ []) true lengths ((refl, refl), tt) (λ _. (refl, refl)) (inr refl)
