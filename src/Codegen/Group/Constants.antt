-- ===== src/Codegen/Group/Constants.antt =====
-- The switch of a dispatcher names constants that are declared.
use pggen.Prelude.{
  ◌≡◌, refl, sym, ◌∙◌, ap, true, false, not, ◌&&◌, ◌||◌, List, [], ◌∷◌, ◌++◌, map, arith,
  if◌then◌else◌, Bool, Bool-cases, All, All-weaken, ◌⊎◌, inl, inr, append_assoc,
}
use pggen.Prelude.Text.{
  Text, codes, eq, eq_iff, eq_refl, contains, contains-eq, IsDistinct, contains-misses,
}
use pggen.Codegen.{TemplatedQuery, SortKeyConst}
use pggen.Codegen.Emit.{concat}
use pggen.Codegen.Group.{
  snake_to_camel, sort_key_constants, const_by_value, build_paginate_group, variant_method_name,
  dispatch_case, emit_dispatcher,
}

-- The constant of a sort key.
abbrev pub const_of : (Text → Text) → (Text → Text) → Text → Text → Text
const_of to_lower to_upper name key = name ++ (codes "Sort" ++ snake_to_camel to_lower to_upper key)

abbrev pub values : List SortKeyConst → List Text
values cs = map (λ (c : SortKeyConst). c.value) cs

module _ (nm : Text → Text) where
  -- A lookup among constants whose names are a function of their values.
  const_by_value-name :
      (cs : List SortKeyConst) (key n : Text)
      → All (λ (c : SortKeyConst). c.const_name ≡ nm c.value) cs
      → (contains (values cs) key ≡ true) ⊎ (n ≡ nm key)
      → const_by_value cs key n ≡ nm key
  unfolding const_by_value contains
  const_by_value-name [] key n h (inl e) = cc
  const_by_value-name [] key n h (inr e) = e
  const_by_value-name (c ∷ cs) key n h e = elim (Bool-cases (eq c.value key)) [
    | inl q ↦
        rw q (
          const_by_value-name cs key c.const_name h.1
            (inr (h.0 ∙ ap nm ((eq_iff c.value key).0 q))))
    | inr q ↦ rw q (const_by_value-name cs key n h.1 (rw q at e))
  ]

-- The sort keys of the variants that have one.
unfoldable pub sort_keys : List TemplatedQuery → List Text
sort_keys [] = []
sort_keys (v ∷ vs) =
    let rest = sort_keys vs in
    if v.variant_key.is_default then rest else v.variant_key.sort_key ∷ rest

module _ (to_lower to_upper : Text → Text) (name : Text) where
  contains-sort_key_constants :
      (seen : List Text) (vs : List TemplatedQuery) (x : Text)
      → contains (values (sort_key_constants to_lower to_upper name seen vs)) x
        ≡ (not (contains seen x) && contains (sort_keys vs) x)
  unfolding sort_key_constants sort_keys contains
  contains-sort_key_constants seen [] x = ground (arith, contains seen x)
  contains-sort_key_constants seen (v ∷ vs) x =
      let key = v.variant_key.sort_key in
      let passed = contains-sort_key_constants seen vs x in
      let later = contains-sort_key_constants (key ∷ seen) vs x in
      let same = contains-eq seen key x in
      elim (Bool-cases v.variant_key.is_default) [
        | inl d ↦ rw d passed
        | inr d ↦ elim (Bool-cases (contains seen key)) [
          | inl e ↦ rw (d, e) (ground (arith, passed, same, e))
          | inr e ↦ rw (d, e) (ground (arith, later, same, e))
        ]
      ]

  sort_key_constants-IsDistinct :
      (seen : List Text) (vs : List TemplatedQuery)
      → IsDistinct (values (sort_key_constants to_lower to_upper name seen vs))
  unfolding sort_key_constants
  sort_key_constants-IsDistinct seen [] = tt
  sort_key_constants-IsDistinct seen (v ∷ vs) =
      let key = v.variant_key.sort_key in
      elim (Bool-cases (v.variant_key.is_default || contains seen key)) [
        | inl e ↦ rw e (sort_key_constants-IsDistinct seen vs)
        | inr e ↦
            let out = sort_key_constants to_lower to_upper name (key ∷ seen) vs in
            let gone : contains (values out) key ≡ false =
              unfold contains in
              ground (arith, contains-sort_key_constants (key ∷ seen) vs key, eq_refl key) in
            rw e
              (contains-misses (values out) key gone, sort_key_constants-IsDistinct (key ∷ seen) vs)
      ]

  sort_key_constants-named :
      (seen : List Text) (vs : List TemplatedQuery)
      → All
          (λ (c : SortKeyConst). c.const_name ≡ const_of to_lower to_upper name c.value)
          (sort_key_constants to_lower to_upper name seen vs)
  unfolding sort_key_constants
  sort_key_constants-named seen [] = tt
  sort_key_constants-named seen (v ∷ vs) =
      let key = v.variant_key.sort_key in
      elim (Bool-cases (v.variant_key.is_default || contains seen key)) [
        | inl e ↦ rw e (sort_key_constants-named seen vs)
        | inr e ↦ rw e (refl, sort_key_constants-named (key ∷ seen) vs)
      ]

const_by_value-missing :
    (cs : List SortKeyConst) (key n : Text)
    → contains (values cs) key ≡ false
    → const_by_value cs key n ≡ n
unfolding const_by_value contains
const_by_value-missing [] key n h = refl
const_by_value-missing (c ∷ cs) key n h = elim (Bool-cases (eq c.value key)) [
  | inl q ↦ absurd (cc (rw q at h))
  | inr q ↦ rw q (const_by_value-missing cs key n (rw q at h))
]

module _ (to_lower to_upper : Text → Text) (name : Text) (variants : List TemplatedQuery) where
  const_by_value-sort_keys :
      (key : Text)
      → const_by_value (sort_key_constants to_lower to_upper name [] variants) key []
        ≡ (if contains (sort_keys variants) key then const_of to_lower to_upper name key else [])
  const_by_value-sort_keys key =
      let consts = sort_key_constants to_lower to_upper name [] variants in
      let found : contains (values consts) key ≡ contains (sort_keys variants) key =
        unfold contains in contains-sort_key_constants to_lower to_upper name [] variants key in
      elim (Bool-cases (contains (sort_keys variants) key)) [
        | inl e ↦ rw e (
            const_by_value-name (const_of to_lower to_upper name) consts key []
              (sort_key_constants-named to_lower to_upper name [] variants) (inl (found ∙ e)))
        | inr e ↦ rw e (const_by_value-missing consts key [] (found ∙ e))
      ]

concat-append : (xs ys : List Text) → concat (xs ++ ys) ≡ concat xs ++ concat ys
concat-append [] ys = refl
concat-append (x ∷ xs) ys =
    ap (λ t. x ++ t) (concat-append xs ys) ∙ sym (append_assoc x (concat xs) (concat ys))

-- The case of a variant in the switch of the dispatcher, from the method that is called and the
-- constant that is compared with: the flags are that it is the default, and that it descends.
abbrev pub case_text : Text → Text → Bool → Bool → Text
case_text method const_name true descending =
    codes "\tcase params.SortKey == \"\":\n\t\treturn q." ++ (method ++ codes "(ctx, params)\n")
case_text method const_name false true =
    codes "\tcase params.SortKey == "
    ++ (const_name
        ++ (codes " && params.Descending:\n\t\treturn q." ++ (method ++ codes "(ctx, params)\n")))
case_text method const_name false false =
    codes "\tcase params.SortKey == "
    ++ (const_name
        ++ (codes " && !params.Descending:\n\t\treturn q." ++ (method ++ codes "(ctx, params)\n")))

module _ (to_lower to_upper : Text → Text) (name : Text) where
  -- The case of a variant of a query, with the constant of its sort key.
  abbrev pub case_of : TemplatedQuery → Text
  case_of v =
      case_text (variant_method_name to_lower to_upper v)
        (const_of to_lower to_upper name v.variant_key.sort_key) v.variant_key.is_default
        v.variant_key.descending

  dispatch_case-case_of :
      (consts : List SortKeyConst) (v : TemplatedQuery)
      → v.variant_key.is_default ≡ true
        ⊎ (const_by_value consts v.variant_key.sort_key []
            ≡ const_of to_lower to_upper name v.variant_key.sort_key)
      → dispatch_case to_lower to_upper consts v ≡ case_of v
  unfolding dispatch_case
  dispatch_case-case_of consts v h =
      go (const_by_value consts v.variant_key.sort_key [])
        (const_of to_lower to_upper name v.variant_key.sort_key)
        (variant_method_name to_lower to_upper v) v.variant_key.is_default v.variant_key.descending
        h
    where
      go :
          (c d m : Text) (is_default descending : Bool)
          → is_default ≡ true ⊎ (c ≡ d)
          → concat (
              (if is_default
                then codes "\tcase params.SortKey == \"\":\n"
                else concat (
                    codes "\tcase params.SortKey == "
                    ∷ c
                    ∷ (if descending
                        then codes " && params.Descending:\n"
                        else codes " && !params.Descending:\n")
                    ∷ []))
              ∷ codes "\t\treturn q."
              ∷ m
              ∷ codes "(ctx, params)\n"
              ∷ [])
            ≡ case_text m d is_default descending
      go c d m true descending h = refl
      go c d m false true (inl e) = cc
      go c d m false false (inl e) = cc
      go c d m false true (inr e) =
          rw
            (
              e,
              append_assoc d (codes " && params.Descending:\n")
                  (codes "\t\treturn q." ++ (m ++ codes "(ctx, params)\n")),
            )
            refl
      go c d m false false (inr e) =
          rw
            (
              e,
              append_assoc d (codes " && !params.Descending:\n")
                  (codes "\t\treturn q." ++ (m ++ codes "(ctx, params)\n")),
            )
            refl

  -- The sort key of a variant that is not the default is among the sort keys.
  sort_keys-All :
      (vs : List TemplatedQuery)
      → All
          (λ (v : TemplatedQuery).
            (v.variant_key.is_default || contains (sort_keys vs) v.variant_key.sort_key) ≡ true)
          vs
  unfolding sort_keys contains
  sort_keys-All [] = tt
  sort_keys-All (v ∷ vs) = (
    elim (Bool-cases v.variant_key.is_default) [
      | inl d ↦ rw d refl
      | inr d ↦ rw (d, eq_refl v.variant_key.sort_key) refl
    ],
    All-weaken
        (λ (w : TemplatedQuery).
          (w.variant_key.is_default || contains (sort_keys vs) w.variant_key.sort_key) ≡ true)
        (λ (w : TemplatedQuery).
          (w.variant_key.is_default || contains (sort_keys (v ∷ vs)) w.variant_key.sort_key) ≡ true)
        (λ w h.
          more v.variant_key.is_default v.variant_key.sort_key (sort_keys vs) w.variant_key.sort_key
            w.variant_key.is_default h)
        vs (sort_keys-All vs),
  )
    where
      more :
          (d : Bool) (key : Text) (keys : List Text) (x : Text) (b : Bool)
          → (b || contains keys x) ≡ true
          → (b || contains (if d then keys else key ∷ keys) x) ≡ true
      more true key keys x b h = h
      more false key keys x b h = ground (arith, h, eq key x)

  dispatch_cases :
      (every vs : List TemplatedQuery)
      → All
          (λ (v : TemplatedQuery).
            (v.variant_key.is_default || contains (sort_keys every) v.variant_key.sort_key) ≡ true)
          vs
      → map
          (dispatch_case to_lower to_upper (sort_key_constants to_lower to_upper name [] every))
          vs
        ≡ map case_of vs
  dispatch_cases every [] h = refl
  dispatch_cases every (v ∷ vs) h =
      rw
        (
          dispatch_case-case_of (sort_key_constants to_lower to_upper name [] every) v (found h.0),
          dispatch_cases every vs h.1,
        )
        refl
    where
      found :
          (v.variant_key.is_default || contains (sort_keys every) v.variant_key.sort_key) ≡ true
          → v.variant_key.is_default ≡ true
            ⊎ (const_by_value
                  (sort_key_constants to_lower to_upper name [] every)
                  v.variant_key.sort_key
                  []
                ≡ const_of to_lower to_upper name v.variant_key.sort_key)
      found e = elim (Bool-cases v.variant_key.is_default) [
        | inl d ↦ inl d
        | inr d ↦
            let there : contains (sort_keys every) v.variant_key.sort_key ≡ true =
              ground (arith, e, d) in
            inr (
              const_by_value-sort_keys to_lower to_upper name every v.variant_key.sort_key
              ∙ rw there refl)
      ]

-- The constants of a group have different values, those are the sort keys of its variants, and
-- each has the name that its key gives; and the text of the dispatcher has a switch with the
-- case of each variant in their order: the case of the default compares the sort key with the
-- empty text, any other with the constant of its key, and the flag with its direction, and
-- each calls the method of the variant.
pub build_paginate_group-constants :
    (to_lower to_upper : Text → Text) (name : Text) (variants : List TemplatedQuery)
    (result_type : Text)
    → IsDistinct (values (build_paginate_group to_lower to_upper name variants).sort_key_consts)
      × ((x : Text)
          → contains
              (values (build_paginate_group to_lower to_upper name variants).sort_key_consts)
              x
            ≡ contains (sort_keys variants) x)
      × All
          (λ (c : SortKeyConst). c.const_name ≡ const_of to_lower to_upper name c.value)
          (build_paginate_group to_lower to_upper name variants).sort_key_consts
      × ((head : Text) × (tail : Text) × (emit_dispatcher to_lower to_upper
              (build_paginate_group to_lower to_upper name variants)
              result_type
            ≡ head
              ++ (codes "\tswitch {\n"
                  ++ (concat (map (case_of to_lower to_upper name) variants)
                      ++ (codes "\tdefault:\n" ++ tail)))))
unfolding build_paginate_group emit_dispatcher
build_paginate_group-constants to_lower to_upper name variants result_type = (
  sort_key_constants-IsDistinct to_lower to_upper name [] variants,
  unfold contains in contains-sort_key_constants to_lower to_upper name [] variants,
  sort_key_constants-named to_lower to_upper name [] variants,
  (
    concat front,
    concat back,
    ap
          (λ cases.
            concat (front ++ codes "\tswitch {\n" ∷ concat cases ∷ codes "\tdefault:\n" ∷ back))
          (dispatch_cases to_lower to_upper name variants variants
            (sort_keys-All to_lower to_upper name variants))
        ∙ concat-append front (
            codes "\tswitch {\n"
            ∷ concat (map (case_of to_lower to_upper name) variants)
            ∷ codes "\tdefault:\n"
            ∷ back),
  ),
)
  where
    front : List Text
    front =
        codes "\n\n// "
        ∷ name
        ∷ codes " dispatches to the keyset-pagination variant matching\n"
        ∷ codes "// params.SortKey and params.Descending.\n"
        ∷ codes "func (q *DBQuerier) "
        ∷ name
        ∷ codes "(ctx context.Context, params "
        ∷ (name ++ codes "Params")
        ∷ codes ") ("
        ∷ result_type
        ∷ codes ", error) {\n"
        ∷ []

    back : List Text
    back =
        codes "\t\treturn nil, fmt.Errorf(\""
        ∷ name
        ∷ codes ": unknown sort key %q\", params.SortKey)\n"
        ∷ codes "\t}\n}"
        ∷ []
