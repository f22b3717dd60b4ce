-- ===== src/Codegen/Group.antt =====
-- The dispatchers of paginated queries: buildPaginateGroup of internal/codegen/golang/templater.go,
-- and what templated_file.go writes for a group. `to_lower` and `to_upper` are strings.ToLower and
-- strings.ToUpper, on the first character of a name; names of queries and sort keys are ASCII.
pub mod Structs
pub mod Fields
pub mod Constants
use pggen.Prelude.{
  ℕ, suc, ◌-◌, Bool, true, false, ◌&&◌, ◌||◌, List, [], ◌∷◌, ◌++◌, map, Option, none, some,
  if◌then◌else◌,
}
use pggen.Prelude.Result.{Result, ok, err, ◌>>=◌}
use pggen.Prelude.Text.{Text, codes, eq, contains, byte_length}
use pggen.GoType.{split_on}
use pggen.Paginate.Predicate.{VariantKey}
use pggen.Codegen.{
  TemplatedParam, TemplatedQuery, SortKeyConst, PaginateGroup, postgres, click_house,
}
use pggen.Codegen.Emit.{EmitError, spaces, concat, longest, padded, emit_result_type}
use pggen.Codegen.ClickHouse.{emit_ch_result_type}

-- The inner loop over the inputs of a variant; `seen` has the names before.
unfoldable pub unify_inputs : List Text → List TemplatedParam → List Text × List TemplatedParam
unfolding contains
unify_inputs seen [] = (seen, [])
unify_inputs seen (input ∷ inputs) =
    let again = unify_inputs seen inputs in
    let (seen', rest) = unify_inputs (input.raw_name.pg_name ∷ seen) inputs in
    if contains seen input.raw_name.pg_name then again else (seen', input ∷ rest)

-- The loop for the unified inputs.
unfoldable pub unified : List Text → List TemplatedQuery → List TemplatedParam
unfolding unify_inputs
unified seen [] = []
unified seen (v ∷ vs) =
    let (seen', inputs) = unify_inputs seen v.inputs in inputs ++ unified seen' vs

-- `EmitResultType()` of a group; `none` is the panic of one without variants.
unfoldable pub group_result_type : PaginateGroup → Option (Result EmitError Text)
unfolding emit_result_type emit_ch_result_type
group_result_type pg = elim pg.variants [
  | [] ↦ none
  | rep ∷ vs ↦ elim rep.dialect [
    | postgres ↦ some (ok (emit_result_type rep))
    | click_house ↦ some (emit_ch_result_type rep)
  ]
]

-- `constByValue[key]`: the last constant of the value, empty if there is none.
unfoldable pub const_by_value : List SortKeyConst → Text → Text → Text
unfolding eq
const_by_value [] key name = name
const_by_value (c ∷ cs) key name =
    const_by_value cs key (if eq c.value key then c.const_name else name)

module _ (to_lower to_upper : Text → Text) where
  -- `lowerFirst(s)` and `upperFirst(s)`.
  abbrev pub lower_first : Text → Text
  lower_first [] = []
  lower_first (c ∷ s) = to_lower (c ∷ []) ++ s

  abbrev pub upper_first : Text → Text
  upper_first [] = []
  upper_first (c ∷ s) = to_upper (c ∷ []) ++ s

  -- `snakeToCamel(s)`.
  unfoldable pub snake_to_camel : Text → Text
  unfolding split_on
  snake_to_camel s = concat (map upper_first (split_on b'_' [] s))

  -- `variantSuffix(k)`.
  unfoldable pub variant_suffix : VariantKey → Text
  unfolding snake_to_camel
  variant_suffix k =
      if k.is_default
      then codes "Default"
      else upper_first (snake_to_camel k.sort_key)
        ++ (if k.descending then codes "Desc" else codes "Asc")

  -- `VariantMethodName()`.
  unfoldable pub variant_method_name : TemplatedQuery → Text
  unfolding variant_suffix
  variant_method_name tq = lower_first tq.variant_group ++ variant_suffix tq.variant_key

  -- The loop for the constants of the sort keys; `seen` has the keys before.
  unfoldable pub sort_key_constants : Text → List Text → List TemplatedQuery → List SortKeyConst
  unfolding contains snake_to_camel
  sort_key_constants name seen [] = []
  sort_key_constants name seen (v ∷ vs) =
      let key = v.variant_key.sort_key in
      let passed = sort_key_constants name seen vs in
      let first : SortKeyConst = record {
        const_name = name ++ (codes "Sort" ++ snake_to_camel key);
        value = key;
      } in
      let later = sort_key_constants name (key ∷ seen) vs in
      if v.variant_key.is_default || contains seen key then passed else first ∷ later

  -- `buildPaginateGroup(name, variants)`.
  unfoldable pub build_paginate_group : Text → List TemplatedQuery → PaginateGroup
  unfolding unified sort_key_constants
  build_paginate_group name variants = record {
    name = name;
    params_type_name = name ++ codes "Params";
    unified_inputs = unified [] variants;
    sort_key_consts = sort_key_constants name [] variants;
    variants = variants;
  }

  -- The case of a variant.
  unfoldable pub dispatch_case : List SortKeyConst → TemplatedQuery → Text
  unfolding const_by_value variant_method_name
  dispatch_case consts v = concat (
      (if v.variant_key.is_default
        then codes "\tcase params.SortKey == \"\":\n"
        else concat (
            codes "\tcase params.SortKey == "
            ∷ const_by_value consts v.variant_key.sort_key []
            ∷ (if v.variant_key.descending
                then codes " && params.Descending:\n"
                else codes " && !params.Descending:\n")
            ∷ []))
      ∷ codes "\t\treturn q."
      ∷ variant_method_name v
      ∷ codes "(ctx, params)\n"
      ∷ [])

  -- `EmitDispatcher()`, from the result type.
  unfoldable pub emit_dispatcher : PaginateGroup → Text → Text
  unfolding dispatch_case
  emit_dispatcher pg result_type = concat (
      codes "\n\n// "
      ∷ pg.name
      ∷ codes " dispatches to the keyset-pagination variant matching\n"
      ∷ codes "// params.SortKey and params.Descending.\n"
      ∷ codes "func (q *DBQuerier) "
      ∷ pg.name
      ∷ codes "(ctx context.Context, params "
      ∷ pg.params_type_name
      ∷ codes ") ("
      ∷ result_type
      ∷ codes ", error) {\n"
      ∷ codes "\tswitch {\n"
      ∷ concat (map (dispatch_case pg.sort_key_consts) pg.variants)
      ∷ codes "\tdefault:\n"
      ∷ codes "\t\treturn nil, fmt.Errorf(\""
      ∷ pg.name
      ∷ codes ": unknown sort key %q\", params.SortKey)\n"
      ∷ codes "\t}\n}"
      ∷ [])

  -- `EmitInterfaceMethod()`, from the result type.
  unfoldable pub emit_interface_method : PaginateGroup → Text → Text
  emit_interface_method pg result_type = concat (
      pg.name
      ∷ codes "(ctx context.Context, params "
      ∷ pg.params_type_name
      ∷ codes ") ("
      ∷ result_type
      ∷ codes ", error)"
      ∷ [])
