-- ===== src/Paginate/Keyset.antt =====
-- The keyset predicate of a specification, from its text to the rows it keeps.
use pggen.Prelude.{ℕ, ◌≡◌, ◌≢◌, ◌⊎◌, Bool, true, false, List, [], ◌∷◌, Option, All}
use pggen.Prelude.Text.{Text, contains}
use pggen.Paginate.Spec.{SortSpec}
use pggen.Paginate.Check.{uses_native_params}
use pggen.Paginate.Predicate.{arg, keyset_predicate}
use pggen.Paginate.Meaning.{
  Cond, null_value, render, eval, keeps, keyset_cond, keyset_predicate-render,
}
use pggen.Paginate.After.{after, values_of, NotNull, keyset_cond-after, keyset_cond-first_page}

-- The condition of the predicate, for columns of which `c` is the leading one.
abbrev pub condition : SortSpec → Text → List Text → List Text → Bool → Cond
condition spec c rest nullable desc =
    keyset_cond (arg spec) (contains nullable c) (uses_native_params spec) desc c rest

-- The predicate is the text of a condition that, behind a cursor, keeps the rows that stand
-- after the cursor in the order of the columns and the direction, and no other: provided that
-- the columns behind the leading one are not NULL, nor the leading one if it is not declared
-- nullable, and that the cursor is not that of the first page.
pub keyset_predicate-after :
    (spec : SortSpec) (c : Text) (rest nullable : List Text) (desc : Bool) (val : Text → Option ℕ)
    → All (NotNull val (arg spec)) rest
    → (contains nullable c ≡ false → NotNull val (arg spec) c)
    → (rest ≢ []) ⊎ (null_value (val (arg spec c)) ≡ false)
    → (keyset_predicate spec (c ∷ rest) nullable desc
        ≡ render (condition spec c rest nullable desc))
      × (keeps (eval val (condition spec c rest nullable desc))
          ≡ after desc (values_of val (arg spec) (c ∷ rest)))
keyset_predicate-after spec c rest nullable desc val h lead first = (
  keyset_predicate-render spec c rest nullable desc,
  keyset_cond-after val (arg spec) (contains nullable c) (uses_native_params spec) desc c rest h
      lead first,
)

-- The predicate is the text of a condition that keeps every row on the first page, where all
-- the cursor's arguments are NULL.
pub keyset_predicate-first_page :
    (spec : SortSpec) (c : Text) (rest nullable : List Text) (desc : Bool) (val : Text → Option ℕ)
    → All (λ d. null_value (val (arg spec d)) ≡ true) (c ∷ rest)
    → (keyset_predicate spec (c ∷ rest) nullable desc
        ≡ render (condition spec c rest nullable desc))
      × (keeps (eval val (condition spec c rest nullable desc)) ≡ true)
keyset_predicate-first_page spec c rest nullable desc val h = (
  keyset_predicate-render spec c rest nullable desc,
  keyset_cond-first_page val (arg spec) (contains nullable c) (uses_native_params spec) desc c rest
      h,
)
