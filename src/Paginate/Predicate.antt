-- ===== src/Paginate/Predicate.antt =====
-- The clauses of a variant: `orderByClause`, `keysetPredicate`, and the variants that `fanOut` builds.
use pggen.Prelude.{Bool, true, false, List, [], ◌∷◌, ◌++◌, map, none, some, if◌then◌else◌}
use pggen.Prelude.Text.{Text, codes, is_empty, has_prefix, join, contains}
use pggen.Paginate.Spec.{SortKey, SortSpec, is_keyset, binding_of}
use pggen.Paginate.Check.{uses_native_params}

-- `cursorRef(binding)`.
unfoldable pub cursor_ref : Text → Text
unfolding has_prefix
cursor_ref binding =
    if has_prefix binding (codes "{")
    then binding
    else codes "pggen.arg('" ++ (binding ++ codes "')")

-- `arg(col)`; a map without the column gives an empty binding.
unfoldable pub arg : SortSpec → Text → Text
unfolding cursor_ref binding_of
arg spec col = elim (binding_of col spec.cursor) [
  | none ↦ cursor_ref []
  | some binding ↦ cursor_ref binding
]

abbrev pub direction : Bool → Text
direction true = codes "DESC"
direction false = codes "ASC"

abbrev pub nulls_position : Bool → Bool → Text
nulls_position true true = codes " NULLS FIRST"
nulls_position _ _ = codes " NULLS LAST"

-- A term of the clause.
unfoldable pub order_term : List Text → Bool → Bool → Text → Text
unfolding contains
order_term nullable desc keyset_mode c =
    let term = c ++ b' ' ∷ direction desc in
    if contains nullable c then term ++ nulls_position desc keyset_mode else term

-- `orderByClause(columns, nullable, desc, keysetMode)`.
unfoldable pub order_by_clause : List Text → List Text → Bool → Bool → Text
unfolding order_term join
order_by_clause columns nullable desc keyset_mode =
    join (map (order_term nullable desc keyset_mode) columns) (codes ", ")

-- `(` and `)` around a text.
abbrev pub in_parens : Text → Text
in_parens s = b'(' ∷ (s ++ codes ")")

abbrev pub op_of : Bool → Text
op_of true = codes "<"
op_of false = codes ">"

-- Two texts with the operator between them.
abbrev pub with_op : Bool → Text → Text → Text
with_op desc lhs rhs = lhs ++ b' ' ∷ (op_of desc ++ b' ' ∷ rhs)

-- `rowComparison(cols)`, over `arg`.
unfoldable pub row_comparison : (Text → Text) → Bool → List Text → Text
unfolding join
row_comparison arg desc (c ∷ []) = with_op desc c (arg c)
row_comparison arg desc cols =
    with_op desc (in_parens (join cols (codes ", "))) (in_parens (join (map arg cols) (codes ", ")))

-- `notDistinct(col)`, over `arg`; the flag is `usesNativeParams(spec)`.
unfoldable pub not_distinct : (Text → Text) → Bool → Text → Text
not_distinct arg false col = col ++ (codes " IS NOT DISTINCT FROM " ++ arg col)
not_distinct arg true col = in_parens (
    in_parens ((col ++ codes " IS NULL") ++ (codes " AND " ++ (arg col ++ codes " IS NULL")))
    ++ (codes " OR " ++ (col ++ (codes " = " ++ arg col))))

-- `nullArm`.
unfoldable pub null_arm : (Text → Text) → Bool → Text → Text
null_arm arg false c = (c ++ codes " IS NULL") ++ (codes " AND " ++ (arg c ++ codes " IS NOT NULL"))
null_arm arg true c = (c ++ codes " IS NOT NULL") ++ (codes " AND " ++ (arg c ++ codes " IS NULL"))

-- The separator of the arms.
abbrev pub or_line : Text
or_line = codes "\n        OR "

-- `sameLead`, of the columns behind the leading one.
unfoldable pub same_lead : (Text → Text) → Bool → Bool → Text → List Text → Text
unfolding not_distinct row_comparison
same_lead arg native desc c [] = []
same_lead arg native desc c (d ∷ rest) =
    in_parens (not_distinct arg native c ++ (codes " AND " ++ row_comparison arg desc (d ∷ rest)))

-- The arms of a predicate whose leading column is nullable.
unfoldable pub arms_of : (Text → Text) → Bool → Bool → Text → List Text → List Text
unfolding same_lead null_arm
arms_of arg native desc c rest =
    let arms = in_parens (with_op desc c (arg c)) ∷ in_parens (null_arm arg desc c) ∷ [] in
    if is_empty (same_lead arg native desc c rest)
    then arms
    else same_lead arg native desc c rest ∷ arms

-- `main`.
unfoldable pub main_of : (Text → Text) → Bool → Bool → List Text → List Text → Text
unfolding row_comparison arms_of join contains
main_of arg native desc nullable [] = row_comparison arg desc []
main_of arg native desc nullable (c ∷ rest) =
    if contains nullable c
    then join (arms_of arg native desc c rest) or_line
    else row_comparison arg desc (c ∷ rest)

-- `escape`: every cursor argument is NULL.
unfoldable pub escape_of : (Text → Text) → List Text → Text
unfolding join
escape_of arg columns =
    in_parens (join (map (λ c. arg c ++ codes " IS NULL") columns) (codes " AND "))

-- `keysetPredicate(spec, columns, nullable, desc)`.
unfoldable pub keyset_predicate : SortSpec → List Text → List Text → Bool → Text
unfolding main_of escape_of arg uses_native_params
keyset_predicate spec columns nullable desc = in_parens (
    main_of (arg spec) (uses_native_params spec) desc nullable columns
    ++ (or_line ++ escape_of (arg spec) columns))

-- `VariantKey`.
pub record VariantKey : Type 0 where
  pub sort_key : Text
  pub descending : Bool
  pub is_default : Bool

-- `variant` of `fanOut`.
pub record Variant : Type 0 where
  pub key : VariantKey
  pub name_suffix : Text
  pub order_by : Text
  pub keyset : Text

-- `withTiebreak(orderBy)`.
unfoldable pub with_tiebreak : SortSpec → Text → Text
with_tiebreak spec order_by =
    if is_empty spec.tiebreak then order_by else order_by ++ (codes ", " ++ spec.tiebreak)

-- `keysetFor(columns, nullable, desc)`.
unfoldable pub keyset_for : SortSpec → List Text → List Text → Bool → Text
unfolding is_keyset keyset_predicate
keyset_for spec columns nullable desc =
    if is_keyset spec then keyset_predicate spec columns nullable desc else []

abbrev pub direction_suffix : Bool → Text
direction_suffix true = codes "_desc"
direction_suffix false = codes "_asc"

unfoldable pub key_variant : SortSpec → SortKey → Bool → Variant
unfolding with_tiebreak order_by_clause keyset_for
key_variant spec k desc = record {
  key = record { sort_key = k.name; descending = desc; is_default = false };
  name_suffix = k.name ++ direction_suffix desc;
  order_by = with_tiebreak spec (order_by_clause k.columns k.nullable desc (is_keyset spec));
  keyset = keyset_for spec k.columns k.nullable desc;
}

unfoldable pub key_variants : SortSpec → List SortKey → List Variant
unfolding key_variant
key_variants spec [] = []
key_variants spec (k ∷ keys) =
    key_variant spec k true ∷ key_variant spec k false ∷ key_variants spec keys

-- The variants that `fanOut` collects before it fills the placeholders of the query.
unfoldable pub variants : SortSpec → List Variant
unfolding key_variants
variants spec =
    record {
      key = record { sort_key = []; descending = false; is_default = true };
      name_suffix = codes "default";
      order_by = with_tiebreak spec (order_by_clause spec.default_by [] false (is_keyset spec));
      keyset = keyset_for spec spec.default_by [] false;
    }
    ∷ key_variants spec spec.keys
