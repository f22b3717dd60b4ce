-- ===== src/Codegen/Templater/Groups.antt =====
-- How the queries of a file are parted into those with a method of their own, the variants and the
-- groups of the dispatchers.
use pggen.Prelude.{
  ◌≡◌, refl, sym, ◌∙◌, ap, ◌≢◌, Bool, true, false, not, ◌&&◌, List, [], ◌∷◌, ◌++◌, map, arith,
  if◌then◌else◌, Bool-cases, All, inl, inr, append_assoc, append-nil,
}
use pggen.Prelude.Text.{Text, eq, eq_iff, eq_sym, IsDistinct}
use pggen.Codegen.{TemplatedQuery, is_variant}
use pggen.Codegen.Templater.{VariantGroups, add_variant, partition}

abbrev pub pick : (TemplatedQuery → Bool) → List TemplatedQuery → List TemplatedQuery
pick p [] = []
pick p (q ∷ qs) = let rest = pick p qs in if p q then q ∷ rest else rest

abbrev pub group_names : VariantGroups → List Text
group_names groups = map (λ (g : Text × List TemplatedQuery). g.0) groups

-- The variants of a group, none where there is no such group.
unfoldable pub variants_of : VariantGroups → Text → List TemplatedQuery
unfolding eq
variants_of [] x = []
variants_of ((n, qs) ∷ groups) x = if eq n x then qs else variants_of groups x

-- A variant of the group of a name.
abbrev pub belongs : Text → TemplatedQuery → Bool
belongs x q = is_variant q && eq q.variant_group x

abbrev only_if : Bool → TemplatedQuery → List TemplatedQuery
only_if true q = q ∷ []
only_if false q = []

variants_of-add_variant :
    (q : TemplatedQuery) (groups : VariantGroups) (x : Text)
    → variants_of (add_variant q groups) x
      ≡ variants_of groups x ++ only_if (eq q.variant_group x) q
unfolding add_variant variants_of
variants_of-add_variant q [] x = elim (Bool-cases (eq q.variant_group x)) [
  | inl e ↦ rw e refl
  | inr e ↦ rw e refl
]
variants_of-add_variant q ((n, qs) ∷ groups) x = elim (Bool-cases (eq n q.variant_group)) [
  | inl e ↦
      let same : eq n x ≡ eq q.variant_group x =
        ap (λ y. eq y x) ((eq_iff n q.variant_group).0 e) in
      elim (Bool-cases (eq q.variant_group x)) [
        | inl k ↦ rw (e, same, k) refl
        | inr k ↦ rw (e, same, k) (sym (append-nil (variants_of groups x)))
      ]
  | inr e ↦ elim (Bool-cases (eq n x)) [
    | inl k ↦
        let other : eq q.variant_group x ≡ false =
          ap (eq q.variant_group) (sym ((eq_iff n x).0 k)) ∙ eq_sym q.variant_group n ∙ e in
        rw (e, k, other) (sym (append-nil qs))
    | inr k ↦ rw (e, k) (variants_of-add_variant q groups x)
  ]
]

module _ (Q : Text → Type 0) where
  All-add_variant :
      (q : TemplatedQuery) (groups : VariantGroups)
      → Q q.variant_group
      → All Q (group_names groups)
      → All Q (group_names (add_variant q groups))
  unfolding add_variant
  All-add_variant q [] h hs = (h, tt)
  All-add_variant q ((n, qs) ∷ groups) h hs = elim (Bool-cases (eq n q.variant_group)) [
    | inl e ↦ rw e hs
    | inr e ↦ rw e (hs.0, All-add_variant q groups h hs.1)
  ]

IsDistinct-add_variant :
    (q : TemplatedQuery) (groups : VariantGroups)
    → IsDistinct (group_names groups)
    → IsDistinct (group_names (add_variant q groups))
unfolding add_variant
IsDistinct-add_variant q [] h = (tt, tt)
IsDistinct-add_variant q ((n, qs) ∷ groups) h = elim (Bool-cases (eq n q.variant_group)) [
  | inl e ↦ rw e h
  | inr e ↦
      let apart : n ≢ q.variant_group = ground (arith, eq_iff n q.variant_group, e) in
      rw e (All-add_variant (λ x. n ≢ x) q groups apart h.0, IsDistinct-add_variant q groups h.1)
]

-- Every group has a variant.
abbrev pub NoneEmpty : VariantGroups → Type 0
NoneEmpty [] = Unit
NoneEmpty ((n, qs) ∷ groups) = (qs ≢ []) × NoneEmpty groups

append-nonempty : (qs : List TemplatedQuery) (q : TemplatedQuery) → qs ++ q ∷ [] ≢ []
append-nonempty [] q e = cc e
append-nonempty (p ∷ qs) q e = cc e

NoneEmpty-add_variant :
    (q : TemplatedQuery) (groups : VariantGroups)
    → NoneEmpty groups
    → NoneEmpty (add_variant q groups)
unfolding add_variant
NoneEmpty-add_variant q [] h = ((λ e. cc e), tt)
NoneEmpty-add_variant q ((n, qs) ∷ groups) h = elim (Bool-cases (eq n q.variant_group)) [
  | inl e ↦ rw e (append-nonempty qs q, h.1)
  | inr e ↦ rw e (h.0, NoneEmpty-add_variant q groups h.1)
]

pub record IsParted (queries : List TemplatedQuery) (start groups : VariantGroups) : Type 0 where
  pub distinct : IsDistinct (group_names groups)
  pub nonempty : NoneEmpty groups
  pub variants : (x : Text) → variants_of groups x ≡ variants_of start x ++ pick (belongs x) queries

pick_add :
    (x : Text) (q : TemplatedQuery) (qs : List TemplatedQuery)
    → is_variant q ≡ true
    → only_if (eq q.variant_group x) q ++ pick (belongs x) qs ≡ pick (belongs x) (q ∷ qs)
pick_add x q qs e = elim (Bool-cases (eq q.variant_group x)) [
  | inl k ↦ rw (e, k) refl
  | inr k ↦ rw (e, k) refl
]

partition-IsParted :
    (queries : List TemplatedQuery) (start : VariantGroups)
    → IsDistinct (group_names start)
    → NoneEmpty start
    → IsParted queries start (partition queries start).2
unfolding partition
partition-IsParted [] start d n = record {
  distinct = d;
  nonempty = n;
  variants = λ x. sym (append-nil (variants_of start x));
}
partition-IsParted (q ∷ qs) start d n = elim (Bool-cases (is_variant q)) [
  | inl e ↦
      let inv =
        partition-IsParted qs (add_variant q start) (IsDistinct-add_variant q start d)
          (NoneEmpty-add_variant q start n) in
      rw e (record {
        distinct = inv.distinct;
        nonempty = inv.nonempty;
        variants = λ x.
            inv.variants x
            ∙ ap (λ vs. vs ++ pick (belongs x) qs) (variants_of-add_variant q start x)
            ∙ append_assoc (variants_of start x) (only_if (eq q.variant_group x) q)
                (pick (belongs x) qs)
            ∙ ap (◌++◌ (variants_of start x)) (pick_add x q qs e);
      })
  | inr e ↦
      let inv = partition-IsParted qs start d n in
      rw e (record {
        distinct = inv.distinct;
        nonempty = inv.nonempty;
        variants = λ x. inv.variants x ∙ rw e refl;
      })
]

partition-pick :
    (queries : List TemplatedQuery) (start : VariantGroups)
    → ((partition queries start).0 ≡ pick (λ q. not (is_variant q)) queries)
      × ((partition queries start).1 ≡ pick is_variant queries)
unfolding partition
partition-pick [] start = (refl, refl)
partition-pick (q ∷ qs) start = elim (Bool-cases (is_variant q)) [
  | inl e ↦ let rest = partition-pick qs (add_variant q start) in rw e (rest.0, ap (◌∷◌ q) rest.1)
  | inr e ↦ let rest = partition-pick qs start in rw e (ap (◌∷◌ q) rest.0, rest.1)
]

-- The queries of a file are parted in their order: those that are no variants, the variants,
-- and the groups, which have different names, have a variant each, and have as theirs the
-- variants of their name.
pub partition_lem :
    (queries : List TemplatedQuery)
    → (((partition queries []).0 ≡ pick (λ q. not (is_variant q)) queries)
        × ((partition queries []).1 ≡ pick is_variant queries))
      × (IsDistinct (group_names (partition queries []).2) × NoneEmpty (partition queries []).2)
      × ((x : Text) → variants_of (partition queries []).2 x ≡ pick (belongs x) queries)
partition_lem queries =
    let inv = partition-IsParted queries [] tt tt in
    (partition-pick queries [], (inv.distinct, inv.nonempty), unfold variants_of in inv.variants)
