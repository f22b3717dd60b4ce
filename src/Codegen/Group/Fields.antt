-- ===== src/Codegen/Group/Fields.antt =====
-- The struct of a dispatcher's parameters has a field for everything that its variants pass on.
use mathlib.Core.Path.{subst}
use pggen.Prelude.{
  ℕ, ◌≡◌, refl, sym, ◌∙◌, ap, true, false, not, ◌&&◌, List, [], ◌∷◌, ◌++◌, map, arith, Bool-cases,
  All, All-append, All-both, All-weaken, inl, inr,
}
use pggen.Prelude.Text.{
  Text, codes, eq, eq_iff, eq_refl, contains, contains-eq, IsDistinct, contains-misses,
}
use pggen.Codegen.{TemplatedParam, TemplatedQuery, PaginateGroup}
use pggen.Codegen.Emit.{concat, longest, emit_variant_param_names}
use pggen.Codegen.Group.Structs.{Field, field_of, field_line, group_fields, emit_group_param_struct}
use pggen.Codegen.Group.{unify_inputs, unified, build_paginate_group}

abbrev pub pg_names : List TemplatedParam → List Text
pg_names inputs = map (λ (p : TemplatedParam). p.raw_name.pg_name) inputs

abbrev pub upper_names : List TemplatedParam → List Text
upper_names inputs = map (λ (p : TemplatedParam). p.upper_name) inputs

-- The inputs of all variants.
unfoldable pub all_inputs : List TemplatedQuery → List TemplatedParam
all_inputs [] = []
all_inputs (v ∷ vs) = v.inputs ++ all_inputs vs

unify_inputs-append :
    (seen : List Text) (xs ys : List TemplatedParam)
    → (unify_inputs seen (xs ++ ys)).1
      ≡ (unify_inputs seen xs).1 ++ (unify_inputs (unify_inputs seen xs).0 ys).1
unfolding unify_inputs
unify_inputs-append seen [] ys = refl
unify_inputs-append seen (x ∷ xs) ys = elim (Bool-cases (contains seen x.raw_name.pg_name)) [
  | inl e ↦ rw e (unify_inputs-append seen xs ys)
  | inr e ↦ rw e (ap (◌∷◌ x) (unify_inputs-append (x.raw_name.pg_name ∷ seen) xs ys))
]

unified-flat :
    (seen : List Text) (vs : List TemplatedQuery)
    → unified seen vs ≡ (unify_inputs seen (all_inputs vs)).1
unfolding unified all_inputs
unified-flat seen [] = unfold unify_inputs in refl
unified-flat seen (v ∷ vs) =
    ap (◌++◌ (unify_inputs seen v.inputs).1) (unified-flat (unify_inputs seen v.inputs).0 vs)
    ∙ sym (unify_inputs-append seen v.inputs (all_inputs vs))

-- The names that are left.
contains-unify_inputs :
    (seen : List Text) (xs : List TemplatedParam) (x : Text)
    → contains (pg_names (unify_inputs seen xs).1) x
      ≡ (not (contains seen x) && contains (pg_names xs) x)
unfolding unify_inputs contains
contains-unify_inputs seen [] x = ground (arith, contains seen x)
contains-unify_inputs seen (p ∷ xs) x =
    let n = p.raw_name.pg_name in
    let again = contains-unify_inputs seen xs x in
    let more = contains-unify_inputs (n ∷ seen) xs x in
    let same = contains-eq seen n x in
    elim (Bool-cases (contains seen n)) [
      | inl e ↦ rw e (ground (arith, again, same, e))
      | inr e ↦ rw e (ground (arith, more, same, e))
    ]

unify_inputs-IsDistinct :
    (seen : List Text) (xs : List TemplatedParam) → IsDistinct (pg_names (unify_inputs seen xs).1)
unfolding unify_inputs
unify_inputs-IsDistinct seen [] = tt
unify_inputs-IsDistinct seen (p ∷ xs) =
    let n = p.raw_name.pg_name in
    elim (Bool-cases (contains seen n)) [
      | inl e ↦ rw e (unify_inputs-IsDistinct seen xs)
      | inr e ↦
          let out = (unify_inputs (n ∷ seen) xs).1 in
          let gone : contains (pg_names out) n ≡ false =
            unfold contains in ground (arith, contains-unify_inputs (n ∷ seen) xs n, eq_refl n) in
          rw e (contains-misses (pg_names out) n gone, unify_inputs-IsDistinct (n ∷ seen) xs)
    ]

module _ (P : TemplatedParam → Type 0) where
  unify_inputs-All :
      (seen : List Text) (xs : List TemplatedParam) → All P xs → All P (unify_inputs seen xs).1
  unfolding unify_inputs
  unify_inputs-All seen [] h = tt
  unify_inputs-All seen (p ∷ xs) h = elim (Bool-cases (contains seen p.raw_name.pg_name)) [
    | inl e ↦ rw e (unify_inputs-All seen xs h.1)
    | inr e ↦ rw e (h.0, unify_inputs-All (p.raw_name.pg_name ∷ seen) xs h.1)
  ]

  all_inputs-All : (vs : List TemplatedQuery) → All (λ v. All P v.inputs) vs → All P (all_inputs vs)
  unfolding all_inputs
  all_inputs-All [] h = tt
  all_inputs-All (v ∷ vs) h = All-append P v.inputs (all_inputs vs) h.0 (all_inputs-All vs h.1)

-- The Go name of an input is a function of its name.
abbrev pub Named : (Text → Text) → TemplatedParam → Type 0
Named go_name p = p.upper_name ≡ go_name p.raw_name.pg_name

contains-upper_names :
    (go_name : Text → Text) (ps : List TemplatedParam) (x : Text)
    → All (Named go_name) ps
    → contains (pg_names ps) x ≡ true
    → contains (upper_names ps) (go_name x) ≡ true
unfolding contains
contains-upper_names go_name [] x h e = cc
contains-upper_names go_name (p ∷ ps) x h e = elim (Bool-cases (eq p.raw_name.pg_name x)) [
  | inl q ↦
      let here : eq p.upper_name (go_name x) ≡ true =
        (eq_iff p.upper_name (go_name x)).1
          (h.0 ∙ ap go_name ((eq_iff p.raw_name.pg_name x).0 q)) in
      rw here refl
  | inr q ↦ let later = contains-upper_names go_name ps x h.1 in ground (arith, later, q, e)
]

module _ (P : TemplatedParam → Type 0) where
  All-front : (xs ys : List TemplatedParam) → All P (xs ++ ys) → All P xs × All P ys
  All-front [] ys h = (tt, h)
  All-front (x ∷ xs) ys h = let rest = All-front xs ys h.1 in ((h.0, rest.0), rest.1)

  All-variants : (vs : List TemplatedQuery) → All P (all_inputs vs) → All (λ v. All P v.inputs) vs
  unfolding all_inputs
  All-variants [] h = tt
  All-variants (v ∷ vs) h =
      let parts = All-front v.inputs (all_inputs vs) h in (parts.0, All-variants vs parts.1)

-- Each input is found by its name.
members :
    (xs : List TemplatedParam)
    → All (λ (p : TemplatedParam). contains (pg_names xs) p.raw_name.pg_name ≡ true) xs
unfolding contains
members [] = tt
members (x ∷ xs) = (
  rw (eq_refl x.raw_name.pg_name) refl,
  All-weaken (λ (p : TemplatedParam). contains (pg_names xs) p.raw_name.pg_name ≡ true)
      (λ (p : TemplatedParam). contains (pg_names (x ∷ xs)) p.raw_name.pg_name ≡ true)
      (λ p h. ground (arith, h)) xs (members xs),
)

contains-unified :
    (every : List TemplatedParam) (x : Text)
    → contains (pg_names (unify_inputs [] every).1) x ≡ contains (pg_names every) x
unfolding contains
contains-unified every x = contains-unify_inputs [] every x

-- What is unified keeps the fields of the inputs.
unify_inputs-fields :
    (go_name : Text → Text) (every : List TemplatedParam)
    → All (Named go_name) every
    → All
        (λ (p : TemplatedParam).
          contains (upper_names (unify_inputs [] every).1) p.upper_name ≡ true)
        every
unify_inputs-fields go_name every named =
    All-weaken
      (λ (p : TemplatedParam).
        (contains (pg_names every) p.raw_name.pg_name ≡ true) × Named go_name p)
      (λ (p : TemplatedParam). contains (upper_names out) p.upper_name ≡ true)
      (λ p h.
        subst (λ s. contains (upper_names out) s ≡ true) (sym h.1)
          (contains-upper_names go_name out p.raw_name.pg_name
            (unify_inputs-All (Named go_name) [] every named)
            (contains-unified every p.raw_name.pg_name ∙ h.0)))
      every
      (All-both (λ (p : TemplatedParam). contains (pg_names every) p.raw_name.pg_name ≡ true)
        (Named go_name) every (members every) named)
  where
    out : List TemplatedParam
    out = (unify_inputs [] every).1

-- The lines of a struct declare fields: each has the name of its field, and a blank behind it.
pub data Declares : List Text → List Text → Type 0 where
  no_fields : Declares [] []
  field :
      {name : Text} (rest : Text) {fields lines : List Text}
      → Declares fields lines
      → Declares (name ∷ fields) ((b'\t' ∷ (name ++ b' ' ∷ rest)) ∷ lines)

-- The arguments of a call are read from fields of the parameters, each of which is declared.
abbrev pub Reads : List Text → Text → Type 0
Reads fields args =
    (names : List Text) × All (λ name. contains fields name ≡ true) names
    × (args ≡ concat (map (λ name. codes ", params." ++ name) names))

emit_variant_param_names-Reads :
    (fields : List Text) (v : TemplatedQuery)
    → All (λ (p : TemplatedParam). contains fields p.upper_name ≡ true) v.inputs
    → Reads fields (emit_variant_param_names v)
unfolding emit_variant_param_names
emit_variant_param_names-Reads fields v h =
    (upper_names v.inputs, names_All v.inputs h, ap concat (names_map v.inputs))
  where
    names_All :
        (ps : List TemplatedParam)
        → All (λ (p : TemplatedParam). contains fields p.upper_name ≡ true) ps
        → All (λ name. contains fields name ≡ true) (upper_names ps)
    names_All [] h = tt
    names_All (p ∷ ps) h = (h.0, names_All ps h.1)

    names_map :
        (ps : List TemplatedParam)
        → map (λ (p : TemplatedParam). codes ", params." ++ p.upper_name) ps
          ≡ map (λ name. codes ", params." ++ name) (upper_names ps)
    names_map [] = refl
    names_map (p ∷ ps) = ap (◌∷◌ (codes ", params." ++ p.upper_name)) (names_map ps)

module _ (quote : Text → Text) where
  abbrev names_of : List (Field quote) → List Text
  names_of fs = map (λ (f : Field quote). f.name) fs

  field_lines-Declares :
      (wn wt : ℕ) (fs : List (Field quote))
      → Declares (names_of fs) (map (field_line quote wn wt) fs)
  field_lines-Declares wn wt [] = no_fields
  field_lines-Declares wn wt (f ∷ fs) = field _ (field_lines-Declares wn wt fs)

  contains-group_fields :
      (ps : List TemplatedParam) (rest : List (Field quote)) (x : Text)
      → contains (upper_names ps) x ≡ true
      → contains (names_of (map (field_of quote) ps ++ rest)) x ≡ true
  unfolding contains
  contains-group_fields [] rest x h = cc
  contains-group_fields (p ∷ ps) rest x h =
      let later = contains-group_fields ps rest x in ground (arith, later, h)

  -- The struct of the parameters has lines for its fields, and the arguments of each variant are
  -- read from these.
  abbrev pub ServesVariants : PaginateGroup → Type 0
  ServesVariants pg =
      (fields : List Text) × (lines : List Text) × (emit_group_param_struct quote pg
        ≡ codes "\n\ntype "
          ++ (pg.params_type_name ++ (codes " struct {\n" ++ (concat lines ++ codes "}"))))
      × Declares fields lines
      × All (λ v. Reads fields (emit_variant_param_names v)) pg.variants

  group-ServesVariants :
      (pg : PaginateGroup)
      → All
          (λ (v : TemplatedQuery).
            All
              (λ (p : TemplatedParam). contains (upper_names pg.unified_inputs) p.upper_name ≡ true)
              v.inputs)
          pg.variants
      → ServesVariants pg
  unfolding emit_group_param_struct
  group-ServesVariants pg h = (
    names_of (group_fields quote pg),
    _,
    refl,
    field_lines-Declares (longest (λ (f : Field quote). f.name) 0 (group_fields quote pg))
        (longest (λ (f : Field quote). f.typ) 0 (group_fields quote pg)) (group_fields quote pg),
    All-weaken
        (λ (v : TemplatedQuery).
          All (λ (p : TemplatedParam). contains (upper_names pg.unified_inputs) p.upper_name ≡ true)
            v.inputs)
        (λ v. Reads (names_of (group_fields quote pg)) (emit_variant_param_names v))
        (λ v g. emit_variant_param_names-Reads (names_of (group_fields quote pg)) v (
          All-weaken
            (λ (p : TemplatedParam). contains (upper_names pg.unified_inputs) p.upper_name ≡ true)
            (λ (p : TemplatedParam).
              contains (names_of (group_fields quote pg)) p.upper_name ≡ true)
            (λ p e. contains-group_fields pg.unified_inputs _ p.upper_name e) v.inputs g))
        pg.variants h,
  )

-- The unified inputs of a group have different names, and those are the names of the inputs of
-- its variants; and where the Go name of an input is a function of its name, the text that is
-- written of the struct of the dispatcher's parameters has a line for each of its fields, and
-- the arguments that are written of a variant's call are each one of those fields of params.
pub build_paginate_group-fields :
    (quote to_lower to_upper : Text → Text) (name : Text) (variants : List TemplatedQuery)
    (go_name : Text → Text)
    → All (λ v. All (Named go_name) v.inputs) variants
    → IsDistinct (pg_names (build_paginate_group to_lower to_upper name variants).unified_inputs)
      × ((x : Text)
          → contains
              (pg_names (build_paginate_group to_lower to_upper name variants).unified_inputs)
              x
            ≡ contains (pg_names (all_inputs variants)) x)
      × ServesVariants quote (build_paginate_group to_lower to_upper name variants)
unfolding build_paginate_group
build_paginate_group-fields quote to_lower to_upper name variants go_name named =
    let every = all_inputs variants in
    let out = (unify_inputs [] every).1 in
    (
      rw (unified-flat [] variants) (unify_inputs-IsDistinct [] every),
      rw (unified-flat [] variants) (contains-unified every),
      group-ServesVariants quote (build_paginate_group to_lower to_upper name variants) (
          rw (unified-flat [] variants) (
            All-variants (λ (p : TemplatedParam). contains (upper_names out) p.upper_name ≡ true)
              variants
              (unify_inputs-fields go_name every (all_inputs-All (Named go_name) variants named)))),
    )
