-- ===== src/Paginate/Meaning.antt =====
-- The part of SQL that `keysetPredicate` writes: conditions, their text, and their value at a row, in
-- SQL's logic of three values. A text stands for a column or for a cursor argument, and a value is a
-- number or NULL.
use pggen.Prelude.{
  ℕ, ◌≡◌, refl, ap, Bool, true, false, List, [], ◌∷◌, ◌++◌, map, Option, none, some, ◌==◌, ltb,
  if◌then◌else◌, Bool-cases, inl, inr,
}
use pggen.Prelude.Text.{Text, codes, join, contains}
use pggen.Paginate.Spec.{SortSpec}
use pggen.Paginate.Check.{uses_native_params}
use pggen.Paginate.Predicate.{
  in_parens, with_op, or_line, arg, row_comparison, not_distinct, null_arm, same_lead, arms_of,
  main_of, escape_of, keyset_predicate,
}

pub data Truth : Type 0 where
  yes no unknown : Truth

abbrev pub of_bool : Bool → Truth
of_bool true = yes
of_bool false = no

abbrev pub both3 : Truth → Truth → Truth
both3 yes b = b
both3 no b = no
both3 unknown no = no
both3 unknown yes = unknown
both3 unknown unknown = unknown

abbrev pub either3 : Truth → Truth → Truth
either3 yes b = yes
either3 no b = b
either3 unknown yes = yes
either3 unknown no = unknown
either3 unknown unknown = unknown

-- The operators of a comparison: `<` for `true` and `>` for `false`, their text and their meaning.
abbrev pub operator : Bool → Text
operator true = codes "<"
operator false = codes ">"

abbrev pub goes_on : Bool → ℕ → ℕ → Bool
goes_on true v w = ltb v w
goes_on false v w = ltb w v

-- A comparison of rows: the first pair that differs decides, and a NULL before it leaves it unknown.
abbrev pub compare_rows : Bool → List (Option ℕ × Option ℕ) → Truth
compare_rows desc [] = no
compare_rows desc ((none, w) ∷ pairs) = unknown
compare_rows desc ((some v, none) ∷ pairs) = unknown
compare_rows desc ((some v, some w) ∷ pairs) =
    let rest = compare_rows desc pairs in if v == w then rest else of_bool (goes_on desc v w)

abbrev pub null_value : Option ℕ → Bool
null_value none = true
null_value (some v) = false

abbrev pub same_value : Option ℕ → Option ℕ → Bool
same_value none none = true
same_value none (some w) = false
same_value (some v) none = false
same_value (some v) (some w) = v == w

abbrev pub equal_value : Option ℕ → Option ℕ → Truth
equal_value none w = unknown
equal_value (some v) none = unknown
equal_value (some v) (some w) = of_bool (v == w)

pub data Cond : Type 0 where
  null_is null_not : Text → Cond
  compare : Bool → List (Text × Text) → Cond
  same equal : Text → Text → Cond
  parens : Cond → Cond
  both either any : Cond → Cond → Cond

abbrev pub sides : Bool → Text → Text → Text
sides less lhs rhs = lhs ++ b' ' ∷ (operator less ++ b' ' ∷ rhs)

abbrev pub compare_text : Bool → List (Text × Text) → Text
compare_text desc ((c, x) ∷ []) = sides desc c x
compare_text desc pairs =
    sides desc (in_parens (join (map (λ p. p.0) pairs) (codes ", ")))
      (in_parens (join (map (λ p. p.1) pairs) (codes ", ")))

abbrev pub render : Cond → Text
render (null_is t) = t ++ codes " IS NULL"
render (null_not t) = t ++ codes " IS NOT NULL"
render (compare desc pairs) = compare_text desc pairs
render (same c x) = c ++ (codes " IS NOT DISTINCT FROM " ++ x)
render (equal c x) = c ++ (codes " = " ++ x)
render (parens a) = in_parens (render a)
render (both a b) = render a ++ (codes " AND " ++ render b)
render (either a b) = render a ++ (codes " OR " ++ render b)
render (any a b) = render a ++ (or_line ++ render b)

-- The value of a condition, where `val` gives the value of a text.
abbrev pub eval : (Text → Option ℕ) → Cond → Truth
eval val (null_is t) = of_bool (null_value (val t))
eval val (null_not t) = (if null_value (val t) then no else yes)
eval val (compare desc pairs) = compare_rows desc (map (λ p. (val p.0, val p.1)) pairs)
eval val (same c x) = of_bool (same_value (val c) (val x))
eval val (equal c x) = equal_value (val c) (val x)
eval val (parens a) = eval val a
eval val (both a b) = both3 (eval val a) (eval val b)
eval val (either a b) = either3 (eval val a) (eval val b)
eval val (any a b) = either3 (eval val a) (eval val b)

-- A clause WHERE keeps the row.
abbrev pub keeps : Truth → Bool
keeps yes = true
keeps no = false
keeps unknown = false

-- The predicate as a condition.
module _ (arg : Text → Text) where
  abbrev pub with_args : List Text → List (Text × Text)
  with_args cols = map (λ c. (c, arg c)) cols

  abbrev pub same_cond : Bool → Text → Cond
  same_cond false c = same c (arg c)
  same_cond true c = parens (either (parens (both (null_is c) (null_is (arg c)))) (equal c (arg c)))

  abbrev pub null_cond : Bool → Text → Cond
  null_cond false c = both (null_is c) (null_not (arg c))
  null_cond true c = both (null_not c) (null_is (arg c))

  abbrev pub lead_cond : Bool → Text → Cond
  lead_cond desc c = any (parens (compare desc ((c, arg c) ∷ []))) (parens (null_cond desc c))

  abbrev pub arms_cond : Bool → Bool → Text → List Text → Cond
  arms_cond native desc c [] = lead_cond desc c
  arms_cond native desc c (d ∷ rest) =
      any (parens (both (same_cond native c) (compare desc (with_args (d ∷ rest)))))
        (lead_cond desc c)

  abbrev pub main_cond : Bool → Bool → Bool → Text → List Text → Cond
  main_cond true native desc c rest = arms_cond native desc c rest
  main_cond false native desc c rest = compare desc (with_args (c ∷ rest))

  abbrev pub escape_cond : Text → List Text → Cond
  escape_cond c [] = null_is (arg c)
  escape_cond c (d ∷ rest) = both (null_is (arg c)) (escape_cond d rest)

  -- The flag is whether the leading column is nullable.
  abbrev pub keyset_cond : Bool → Bool → Bool → Text → List Text → Cond
  keyset_cond nullable native desc c rest =
      parens (any (main_cond nullable native desc c rest) (parens (escape_cond c rest)))

  columns_map : (cols : List Text) → map (λ p. p.0) (with_args cols) ≡ cols
  columns_map [] = refl
  columns_map (c ∷ cols) = ap (◌∷◌ c) (columns_map cols)

  args_map : (cols : List Text) → map (λ p. p.1) (with_args cols) ≡ map arg cols
  args_map [] = refl
  args_map (c ∷ cols) = ap (◌∷◌ (arg c)) (args_map cols)

  row_text :
      (desc : Bool) (c : Text) (rest : List Text)
      → row_comparison arg desc (c ∷ rest) ≡ render (compare desc (with_args (c ∷ rest)))
  unfolding row_comparison
  row_text desc c [] = refl
  row_text desc c (d ∷ rest) = ap2_op (columns_map (c ∷ d ∷ rest)) (args_map (c ∷ d ∷ rest))
    where
      ap2_op :
          {lhs lhs' rhs rhs' : List Text}
          → lhs' ≡ lhs
          → rhs' ≡ rhs
          → with_op desc (in_parens (join lhs (codes ", "))) (in_parens (join rhs (codes ", ")))
            ≡ sides desc (in_parens (join lhs' (codes ", "))) (in_parens (join rhs' (codes ", ")))
      ap2_op e f = cc (e, f)

  same_text : (native : Bool) (c : Text) → not_distinct arg native c ≡ render (same_cond native c)
  unfolding not_distinct
  same_text true c = refl
  same_text false c = refl

  null_text : (desc : Bool) (c : Text) → null_arm arg desc c ≡ render (null_cond desc c)
  unfolding null_arm
  null_text true c = refl
  null_text false c = refl

  arms_text :
      (native desc : Bool) (c : Text) (rest : List Text)
      → join (arms_of arg native desc c rest) or_line ≡ render (arms_cond native desc c rest)
  unfolding arms_of join same_lead
  arms_text native desc c [] = rw (null_text desc c) refl
  arms_text native desc c (d ∷ rest) =
      rw (null_text desc c, same_text native c, row_text desc d rest) refl

  escape_text :
      (c : Text) (rest : List Text)
      → join (map (λ c. arg c ++ codes " IS NULL") (c ∷ rest)) (codes " AND ")
        ≡ render (escape_cond c rest)
  unfolding join
  escape_text c [] = refl
  escape_text c (d ∷ rest) =
      ap (λ t. (arg c ++ codes " IS NULL") ++ (codes " AND " ++ t)) (escape_text d rest)

  main_text :
      (native desc : Bool) (nullable : List Text) (c : Text) (rest : List Text)
      → main_of arg native desc nullable (c ∷ rest)
        ≡ render (main_cond (contains nullable c) native desc c rest)
  unfolding main_of
  main_text native desc nullable c rest = elim (Bool-cases (contains nullable c)) [
    | inl e ↦ rw e (arms_text native desc c rest)
    | inr e ↦ rw e (row_text desc c rest)
  ]

-- What `keysetPredicate` writes for columns that are not empty is the text of a condition.
pub keyset_predicate-render :
    (spec : SortSpec) (c : Text) (rest nullable : List Text) (desc : Bool)
    → keyset_predicate spec (c ∷ rest) nullable desc
      ≡ render (keyset_cond (arg spec) (contains nullable c) (uses_native_params spec) desc c rest)
unfolding keyset_predicate escape_of
keyset_predicate-render spec c rest nullable desc =
    rw
      (
        main_text (arg spec) (uses_native_params spec) desc nullable c rest,
        escape_text (arg spec) c rest,
      )
      refl
