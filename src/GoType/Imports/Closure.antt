-- ===== src/GoType/Imports/Closure.antt =====
-- The set that `AddType` fills has the packages of a type, and they are all that its spelling needs.
use mathlib.Core.Path.{subst}
use pggen.Prelude.{
  ◌≡◌, refl, ap, sym, ◌∙◌, Bool, true, false, ◌||◌, List, [], ◌∷◌, ◌++◌, some, arith, if◌then◌else◌,
  Bool-cases, inl, inr,
}
use pggen.Prelude.Text.{Text, codes, eq, eq_refl, eq_iff, contains, is_empty}
use pggen.GoType.{
  GoType, GoTypes, array_type, map_type, composite_type, enum_type, import_type, opaque_type,
  pointer_type, void_type, no_types, next_type, walk, walk_all, base_name, qualified, qualify_leaf,
  qualify_type, with_prefix, map_spelling,
}
use pggen.GoType.Imports.{add_package, add_import, add_type}

-- The packages that a type names, at any depth.
unfoldable mutual
  pub imports_of : GoType → List Text
  imports_of (import_type pkg t) = pkg ∷ imports_of t
  imports_of (composite_type sql columns name fields types) = imports_of_all types
  imports_of (map_type sql key val) = imports_of key ++ imports_of val
  imports_of (array_type sql elem) = imports_of elem
  imports_of (pointer_type elem) = imports_of elem
  imports_of (enum_type sql name labels values) = []
  imports_of (opaque_type name) = []
  imports_of void_type = []

  pub imports_of_all : GoTypes → List Text
  imports_of_all no_types = []
  imports_of_all (next_type t ts) = imports_of t ++ imports_of_all ts

contains-append :
    (xs ys : List Text) (p : Text) → contains (xs ++ ys) p ≡ (contains xs p || contains ys p)
unfolding contains
contains-append [] ys p = refl
contains-append (x ∷ xs) ys p = ground (arith, contains-append xs ys p)

-- Adding a package.
contains-add_package :
    (pkg : Text) (set : List Text) (p : Text)
    → contains (add_package pkg set) p ≡ (contains set p || eq pkg p)
unfolding add_package
contains-add_package pkg set p = elim (Bool-cases (contains set pkg)) [
  | inl e ↦
      rw (e, add_package)
        (elim (Bool-cases (eq pkg p)) [
          | inl q ↦ same_package ((eq_iff pkg p).0 q) e q
          | inr q ↦ rw q (ground arith)
        ])
  | inr e ↦ rw (e, add_package) (contains-append set (pkg ∷ []) p ∙ single_package)
]
  where
    same_package :
        pkg ≡ p
        → contains set pkg ≡ true
        → eq pkg p ≡ true
        → contains set p ≡ (contains set p || eq pkg p)
    same_package e h q = ground (arith, subst (λ x. contains set x ≡ true) e h, q)

    single_package : (contains set p || contains (pkg ∷ []) p) ≡ (contains set p || eq pkg p)
    single_package = ground arith

or_assoc : (a b c : Bool) → ((a || b) || c) ≡ (a || (b || c))
or_assoc true b c = refl
or_assoc false b c = refl

-- What the walk of two parts adds.
contains-both :
    (a : Bool) (xs ys : List Text) (p : Text) {b c : Bool}
    → b ≡ (a || contains xs p)
    → c ≡ (b || contains ys p)
    → c ≡ (a || contains (xs ++ ys) p)
contains-both a xs ys p {b} {c} e e' =
    e'
    ∙ (ap (λ x. x || contains ys p) e
        ∙ (or_assoc a (contains xs p) (contains ys p)
            ∙ ap (λ x. a || x) (sym (contains-append xs ys p))))

mutual
  unfolding walk add_import contains imports_of

  contains-walk :
      (t : GoType) (set : List Text) (p : Text)
      → contains (walk add_import set t) p ≡ (contains set p || contains (imports_of t) p)
  contains-walk (import_type pkg t) set p =
      contains-walk t (add_package pkg set) p
      ∙ (ap (λ x. x || contains (imports_of t) p) (contains-add_package pkg set p)
          ∙ or_assoc (contains set p) (eq pkg p) (contains (imports_of t) p))
  contains-walk (composite_type sql columns name fields types) set p = contains-walk_all types set p
  contains-walk (map_type sql key val) set p =
      contains-both (contains set p) (imports_of key) (imports_of val) p (contains-walk key set p)
        (contains-walk val (walk add_import set key) p)
  contains-walk (array_type sql elem) set p = contains-walk elem set p
  contains-walk (pointer_type elem) set p = contains-walk elem set p
  contains-walk (enum_type sql name labels values) set p = ground arith
  contains-walk (opaque_type name) set p = ground arith
  contains-walk void_type set p = ground arith

  contains-walk_all :
      (ts : GoTypes) (set : List Text) (p : Text)
      → contains (walk_all add_import set ts) p ≡ (contains set p || contains (imports_of_all ts) p)
  contains-walk_all no_types set p = ground arith
  contains-walk_all (next_type t ts) set p =
      contains-both (contains set p) (imports_of t) (imports_of_all ts) p (contains-walk t set p)
        (contains-walk_all ts (walk add_import set t) p)

-- A package is in the set behind AddType if it was in it, or if the type names it at some
-- depth, and not otherwise.
pub contains-add_type :
    (set : List Text) (t : GoType) (p : Text)
    → contains (add_type set t) p ≡ (contains set p || contains (imports_of t) p)
unfolding add_type
contains-add_type set t p = contains-walk t set p

module _ (other : Text) (aliases aliases' : Text → Text) where
  leaf_cong :
      (name pkg : Text)
      → aliases pkg ≡ aliases' pkg
      → qualify_leaf name pkg other aliases ≡ qualify_leaf name pkg other aliases'
  unfolding qualify_leaf
  leaf_cong name pkg e =
      ap (λ a. if is_empty pkg || eq pkg other then some name else qualified name pkg a) e

  builtin_cong :
      (name : Text) → qualify_leaf name [] other aliases ≡ qualify_leaf name [] other aliases'
  unfolding qualify_leaf
  builtin_cong name = refl

  -- Aliases that agree on the packages of a type spell it alike.
  qualify_cong :
      (t : GoType)
      → ((p : Text) → contains (imports_of t) p ≡ true → aliases p ≡ aliases' p)
      → qualify_type other aliases t ≡ qualify_type other aliases' t
  unfolding qualify_type imports_of contains
  qualify_cong (import_type pkg t) agree =
      leaf_cong (base_name t) pkg (agree pkg (ground (arith, eq_refl pkg)))
  qualify_cong (map_type sql key val) agree =
      ap (λ s. map_spelling s (qualify_type other aliases val))
        (qualify_cong key
          (λ p h. agree p (ground (arith, contains-append (imports_of key) (imports_of val) p, h))))
      ∙ ap (map_spelling (qualify_type other aliases' key)) (
          qualify_cong val (λ p h.
            agree p (ground (arith, contains-append (imports_of key) (imports_of val) p, h))))
  qualify_cong (array_type sql elem) agree = ap (with_prefix (codes "[]")) (qualify_cong elem agree)
  qualify_cong (pointer_type elem) agree = ap (with_prefix (codes "*")) (qualify_cong elem agree)
  qualify_cong (composite_type sql columns name fields types) agree = builtin_cong name
  qualify_cong (enum_type sql name labels values) agree = builtin_cong name
  qualify_cong (opaque_type name) agree = builtin_cong name
  qualify_cong void_type agree = builtin_cong []

  -- The spelling of a type needs no alias but those of the packages that AddType adds for it:
  -- maps of aliases that agree on them spell the type alike.
  pub qualify_type-add_type :
      (t : GoType)
      → ((p : Text) → contains (add_type [] t) p ≡ true → aliases p ≡ aliases' p)
      → qualify_type other aliases t ≡ qualify_type other aliases' t
  unfolding contains
  qualify_type-add_type t agree = qualify_cong t (λ p h. agree p (contains-add_type [] t p ∙ h))
