-- ===== src/GoType/Imports/Sorted.antt =====
-- The packages of a set in the order of an import statement.
use pggen.Prelude.{
  ◌≡◌, refl, ap, ◌∙◌, Bool, true, false, not, ◌&&◌, ◌||◌, List, [], ◌∷◌, arith, if◌then◌else◌,
  Bool-cases, inl, inr,
}
use pggen.Prelude.Text.{Text, eq, contains, is_empty}
use pggen.GoType.Imports.{before, insert, sort_strings, nonempty_packages, sorted_packages}

-- Each string stands before the next.
abbrev pub IsSorted : List Text → Type 0
IsSorted [] = Unit
IsSorted (p ∷ []) = Unit
IsSorted (p ∷ q ∷ qs) = (before p q ≡ true) × IsSorted (q ∷ qs)

pub before_total : (s t : Text) → before s t ≡ false → before t s ≡ true
unfolding before
before_total [] t h = cc
before_total (c ∷ s) [] h = refl
before_total (c ∷ s) (d ∷ t) h = ground (arith, h, before_total s t)

insert-IsSorted : (p : Text) (qs : List Text) → IsSorted qs → IsSorted (insert p qs)
unfolding insert
insert-IsSorted p [] h = tt
insert-IsSorted p (q ∷ []) h = elim (Bool-cases (before p q)) [
  | inl e ↦ rw e (e, tt)
  | inr e ↦ rw e (before_total p q e, tt)
]
insert-IsSorted p (q ∷ r ∷ qs) h =
    let rest = insert-IsSorted p (r ∷ qs) h.1 in
    elim (Bool-cases (before p q)) [
      | inl e ↦ rw e (e, h)
      | inr e ↦ rw e (go (before p r) (before_total p q e) rest)
    ]
  where
    go :
        (b : Bool)
        → before q p ≡ true
        → IsSorted (if b then p ∷ r ∷ qs else r ∷ insert p qs)
        → IsSorted (q ∷ (if b then p ∷ r ∷ qs else r ∷ insert p qs))
    go true e rest = (e, rest)
    go false e rest = (h.0, rest)

sort_strings-IsSorted : (ps : List Text) → IsSorted (sort_strings ps)
unfolding sort_strings
sort_strings-IsSorted [] = tt
sort_strings-IsSorted (p ∷ ps) = insert-IsSorted p (sort_strings ps) (sort_strings-IsSorted ps)

contains-insert :
    (p : Text) (qs : List Text) (x : Text) → contains (insert p qs) x ≡ (eq p x || contains qs x)
unfolding insert contains
contains-insert p [] x = refl
contains-insert p (q ∷ qs) x = ground (arith, contains-insert p qs x)

contains-sort_strings : (ps : List Text) (x : Text) → contains (sort_strings ps) x ≡ contains ps x
unfolding sort_strings contains
contains-sort_strings [] x = refl
contains-sort_strings (p ∷ ps) x =
    contains-insert p (sort_strings ps) x ∙ ap (λ b. eq p x || b) (contains-sort_strings ps x)

contains-nonempty_packages :
    (ps : List Text) (x : Text)
    → contains (nonempty_packages ps) x ≡ (not (is_empty x) && contains ps x)
unfolding nonempty_packages contains eq
contains-nonempty_packages [] x = ground (arith, is_empty x)
contains-nonempty_packages ([] ∷ ps) [] = contains-nonempty_packages ps []
contains-nonempty_packages ([] ∷ ps) (d ∷ x) = contains-nonempty_packages ps (d ∷ x)
contains-nonempty_packages ((c ∷ p) ∷ ps) [] = contains-nonempty_packages ps []
contains-nonempty_packages ((c ∷ p) ∷ ps) (d ∷ x) =
    ap (λ b. eq (c ∷ p) (d ∷ x) || b) (contains-nonempty_packages ps (d ∷ x))

-- SortedPackages has the packages of the set that are not empty, and no other, in the order of
-- their names.
pub sorted_packages_lem :
    (set : List Text)
    → IsSorted (sorted_packages set)
      × ((x : Text) → contains (sorted_packages set) x ≡ (not (is_empty x) && contains set x))
unfolding sorted_packages
sorted_packages_lem set = (
  sort_strings-IsSorted (nonempty_packages set),
  λ x. contains-sort_strings (nonempty_packages set) x ∙ contains-nonempty_packages set x,
)
