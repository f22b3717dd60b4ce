-- ===== src/Codegen/ImportList/Kept.antt =====
-- Adding an import and removing one keep the order of the list.
use pggen.Prelude.{
  ◌≡◌, refl, sym, ◌∙◌, ap, ◌≢◌, Bool, true, false, not, ◌&&◌, ◌||◌, List, [], ◌∷◌, arith,
  if◌then◌else◌, Bool-cases, All, inl, inr,
}
use pggen.Prelude.Text.{
  Text, eq, eq_iff, eq_sym, contains, contains-eq, IsDistinct, contains-misses,
}
use pggen.GoType.Imports.{ImportPkg, before}
use pggen.GoType.Imports.Sorted.{IsSorted, before_total}
use pggen.Codegen.ImportList.{
  paths, plain_import, insert_import, has_import, insert_missing, remove_import,
}

-- Sorted paths of which no two are the same.
abbrev pub IsImportList : List ImportPkg → Type 0
IsImportList imports = IsSorted (paths imports) × IsDistinct (paths imports)

IsSorted-insert_import :
    (p : Text) (imports : List ImportPkg)
    → IsSorted (paths imports)
    → IsSorted (paths (insert_import p imports))
unfolding insert_import
IsSorted-insert_import p [] h = tt
IsSorted-insert_import p (i ∷ []) h = elim (Bool-cases (before i.pkg_path p)) [
  | inl e ↦ rw e (e, tt)
  | inr e ↦ rw e (before_total i.pkg_path p e, tt)
]
IsSorted-insert_import p (i ∷ j ∷ imports) h =
    let rest = IsSorted-insert_import p (j ∷ imports) h.1 in
    elim (Bool-cases (before i.pkg_path p)) [
      | inl e ↦ rw e (go (before j.pkg_path p) e rest)
      | inr e ↦ rw e (before_total i.pkg_path p e, h)
    ]
  where
    go :
        (b : Bool)
        → before i.pkg_path p ≡ true
        → IsSorted (paths (if b then j ∷ insert_import p imports else plain_import p ∷ j ∷ imports))
        → IsSorted (
            i.pkg_path
            ∷ paths (if b then j ∷ insert_import p imports else plain_import p ∷ j ∷ imports))
    go true e rest = (h.0, rest)
    go false e rest = (e, rest)

contains-insert_import :
    (p : Text) (imports : List ImportPkg) (x : Text)
    → contains (paths (insert_import p imports)) x ≡ (eq p x || contains (paths imports) x)
unfolding insert_import contains
contains-insert_import p [] x = refl
contains-insert_import p (i ∷ imports) x = elim (Bool-cases (before i.pkg_path p)) [
  | inl e ↦ let rest = contains-insert_import p imports x in rw e (ground (arith, rest))
  | inr e ↦ rw e refl
]

module _ (Q : Text → Type 0) where
  All-insert_import :
      (p : Text) (imports : List ImportPkg)
      → Q p
      → All Q (paths imports)
      → All Q (paths (insert_import p imports))
  unfolding insert_import
  All-insert_import p [] q h = (q, tt)
  All-insert_import p (i ∷ imports) q h = elim (Bool-cases (before i.pkg_path p)) [
    | inl e ↦ rw e (h.0, All-insert_import p imports q h.1)
    | inr e ↦ rw e (q, h)
  ]

  All-remove_import :
      (imports : List ImportPkg) (p : Text)
      → All Q (paths imports)
      → All Q (paths (remove_import imports p))
  unfolding remove_import
  All-remove_import [] p h = tt
  All-remove_import (i ∷ imports) p h = elim (Bool-cases (eq i.pkg_path p)) [
    | inl e ↦ rw e h.1
    | inr e ↦ rw e (h.0, All-remove_import imports p h.1)
  ]

has_import-contains :
    (p : Text) (imports : List ImportPkg) → has_import p imports ≡ contains (paths imports) p
unfolding has_import contains
has_import-contains p [] = refl
has_import-contains p (i ∷ imports) =
    let rest = has_import-contains p imports in ground (arith, rest)

IsDistinct-insert_import :
    (p : Text) (imports : List ImportPkg)
    → All (λ x. p ≢ x) (paths imports)
    → IsDistinct (paths imports)
    → IsDistinct (paths (insert_import p imports))
unfolding insert_import
IsDistinct-insert_import p [] n h = (tt, tt)
IsDistinct-insert_import p (i ∷ imports) n h = elim (Bool-cases (before i.pkg_path p)) [
  | inl e ↦ rw e (
    All-insert_import (λ x. i.pkg_path ≢ x) p imports (λ q. n.0 (sym q)) h.0,
    IsDistinct-insert_import p imports n.1 h.1,
  )
  | inr e ↦ rw e (n, h)
]

pub before_trans : (s t u : Text) → before s t ≡ true → before t u ≡ true → before s u ≡ true
unfolding before
before_trans [] t u h k = refl
before_trans (c ∷ s) [] u h k = cc
before_trans (c ∷ s) (d ∷ t) [] h k = cc
before_trans (c ∷ s) (d ∷ t) (e ∷ u) h k = ground (arith, h, k, before_trans s t u)

-- Without its second, a sorted list is sorted.
IsSorted-skip : (p q : Text) (qs : List Text) → IsSorted (p ∷ q ∷ qs) → IsSorted (p ∷ qs)
IsSorted-skip p q [] h = tt
IsSorted-skip p q (r ∷ qs) h = (before_trans p q r h.0 h.1.0, h.1.1)

-- The empty path stands before every other.
IsSorted-first : (qs : List Text) → IsSorted qs → IsSorted ([] ∷ qs)
IsSorted-first [] h = tt
IsSorted-first (q ∷ qs) h = (unfold before in refl, h)

IsSorted-rest : (p : Text) (qs : List Text) → IsSorted (p ∷ qs) → IsSorted qs
IsSorted-rest p [] h = tt
IsSorted-rest p (q ∷ qs) h = h.1

IsSorted-remove_import :
    (imports : List ImportPkg) (p q : Text)
    → IsSorted (q ∷ paths imports)
    → IsSorted (q ∷ paths (remove_import imports p))
unfolding remove_import
IsSorted-remove_import [] p q h = tt
IsSorted-remove_import (i ∷ imports) p q h = elim (Bool-cases (eq i.pkg_path p)) [
  | inl e ↦ rw e (IsSorted-skip q i.pkg_path (paths imports) h)
  | inr e ↦ rw e (h.0, IsSorted-remove_import imports p i.pkg_path h.1)
]

IsDistinct-remove_import :
    (imports : List ImportPkg) (p : Text)
    → IsDistinct (paths imports)
    → IsDistinct (paths (remove_import imports p))
unfolding remove_import
IsDistinct-remove_import [] p h = tt
IsDistinct-remove_import (i ∷ imports) p h = elim (Bool-cases (eq i.pkg_path p)) [
  | inl e ↦ rw e h.1
  | inr e ↦ rw e (
    All-remove_import (λ x. i.pkg_path ≢ x) imports p h.0,
    IsDistinct-remove_import imports p h.1,
  )
]

apart-contains : (p : Text) (xs : List Text) → All (λ x. p ≢ x) xs → contains xs p ≡ false
unfolding contains
apart-contains p [] h = refl
apart-contains p (x ∷ xs) h =
    let rest = apart-contains p xs h.1 in
    let e = eq_iff x p in ground (arith, rest, e, (λ (q : x ≡ p). h.0 (sym q)))

contains-remove_import :
    (imports : List ImportPkg) (p x : Text)
    → IsDistinct (paths imports)
    → contains (paths (remove_import imports p)) x ≡ (not (eq p x) && contains (paths imports) x)
unfolding remove_import contains
contains-remove_import [] p x h = ground (arith, eq p x)
contains-remove_import (i ∷ imports) p x h =
    let rest = contains-remove_import imports p x h.1 in
    let alone = apart-contains i.pkg_path (paths imports) h.0 in
    let moved = contains-eq (paths imports) i.pkg_path x in
    elim (Bool-cases (eq i.pkg_path p)) [
      | inl e ↦
          let same : eq i.pkg_path x ≡ eq p x = ap (λ y. eq y x) ((eq_iff i.pkg_path p).0 e) in
          rw (e, same) (ground (arith, alone, moved, same))
      | inr e ↦
          let clash : eq i.pkg_path x ≡ true → eq p x ≡ false =
            λ q. eq_sym p x ∙ ap (λ y. eq y p) (sym ((eq_iff i.pkg_path x).0 q)) ∙ e in
          rw e (ground (arith, rest, clash))
    ]

contains-insert_missing :
    (imports : List ImportPkg) (p x : Text)
    → contains (paths (insert_missing imports p)) x ≡ (eq p x || contains (paths imports) x)
unfolding insert_missing
contains-insert_missing imports p x = elim (Bool-cases (has_import p imports)) [
  | inl e ↦
      let there = sym (has_import-contains p imports) ∙ e in
      let same = contains-eq (paths imports) p x in rw e (ground (arith, there, same))
  | inr e ↦ rw e (contains-insert_import p imports x)
]

IsImportList-insert_missing :
    (imports : List ImportPkg) (p : Text)
    → IsImportList imports
    → IsImportList (insert_missing imports p)
unfolding insert_missing
IsImportList-insert_missing imports p h = elim (Bool-cases (has_import p imports)) [
  | inl e ↦ rw e h
  | inr e ↦
      let gone = sym (has_import-contains p imports) ∙ e in
      rw e (
        IsSorted-insert_import p imports h.0,
        IsDistinct-insert_import p imports (contains-misses (paths imports) p gone) h.1,
      )
]

IsImportList-remove_import :
    (imports : List ImportPkg) (p : Text)
    → IsImportList imports
    → IsImportList (remove_import imports p)
IsImportList-remove_import imports p h = (
  IsSorted-rest [] (paths (remove_import imports p))
      (IsSorted-remove_import imports p [] (IsSorted-first (paths imports) h.0)),
  IsDistinct-remove_import imports p h.1,
)

-- If the paths of an import list are sorted and no two are the same, that stays so when an
-- import is added and when one is removed; behind adding a path the list has it and what it
-- had, and behind removing a path what it had but for that path.
pub IsImportList-kept :
    (imports : List ImportPkg) (p : Text)
    → IsImportList imports
    → (IsImportList (insert_missing imports p) × IsImportList (remove_import imports p))
      × ((x : Text)
          → contains (paths (insert_missing imports p)) x ≡ (eq p x || contains (paths imports) x))
      × ((x : Text)
          → contains (paths (remove_import imports p)) x
            ≡ (not (eq p x) && contains (paths imports) x))
IsImportList-kept imports p h = (
  (IsImportList-insert_missing imports p h, IsImportList-remove_import imports p h),
  contains-insert_missing imports p,
  λ x. contains-remove_import imports p x h.1,
)
