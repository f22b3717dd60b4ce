-- ===== src/Codegen/ClickHouse/Call.antt =====
-- What internal/codegen/golang/ch_templated_file.go writes around the call of a query. `quote` is
-- `strconv.Quote`.
use pggen.Prelude.{Bool, true, not, ◌||◌, List, [], ◌∷◌, ◌++◌, if◌then◌else◌}
use pggen.Prelude.Result.{Result, ok, ◌>>=◌}
use pggen.Prelude.Text.{Text, codes, is_empty}
use pggen.Parser.Annotation.{ResultKind, many, one, exec}
use pggen.Ch.Params.{ScanError, rewrite_params}
use pggen.Codegen.{
  TemplatedParam, TemplatedQuery, click_house, remove_void_columns, is_inline_params,
}
use pggen.Codegen.Emit.{concat}
use pggen.Codegen.Emit.Structs.{sql_literal, own_row_struct}
use pggen.Codegen.ClickHouse.{ch_identifier_inputs, emit_ch_uses_row_struct, is_identifier_input}

module _ (quote : Text → Text) where
  -- The loop of `EmitChParamNames` and of `EmitChVariantParamNames`, on what the value of a
  -- parameter is.
  unfoldable pub named_args : (TemplatedParam → Text) → List TemplatedParam → Text
  unfolding is_identifier_input
  named_args value_of [] = []
  named_args value_of (input ∷ inputs) =
      let rest = named_args value_of inputs in
      if is_identifier_input input
      then rest
      else concat (
          codes ",\n\t\tclickhouse.Named("
          ∷ quote input.raw_name.pg_name
          ∷ codes ", "
          ∷ value_of input
          ∷ codes ")"
          ∷ rest
          ∷ [])

  abbrev pub closed_args : Text → Text
  closed_args [] = []
  closed_args (c ∷ s) = (c ∷ s) ++ codes ",\n\t"

  -- `EmitChParamNames()`.
  unfoldable pub emit_ch_param_names : TemplatedQuery → Text
  unfolding named_args
  emit_ch_param_names tq = closed_args (
      named_args
        (λ input.
          if is_inline_params tq then input.lower_name else codes "params." ++ input.upper_name)
        tq.inputs)

  -- `EmitChVariantParamNames()`.
  unfoldable pub emit_ch_variant_param_names : TemplatedQuery → Text
  unfolding named_args
  emit_ch_variant_param_names tq =
      closed_args (named_args (λ input. codes "params." ++ input.upper_name) tq.inputs)

  -- `EmitChRowStruct()`.
  unfoldable pub emit_ch_row_struct : TemplatedQuery → Text
  unfolding emit_ch_uses_row_struct own_row_struct remove_void_columns
  emit_ch_row_struct tq =
      if not (emit_ch_uses_row_struct tq) || not (is_empty tq.output_type)
      then []
      else own_row_struct quote tq.name (remove_void_columns tq.outputs) click_house

  -- `EmitChPreparedSQL()`.
  unfoldable pub emit_ch_prepared_sql : TemplatedQuery → Result ScanError Text
  unfolding rewrite_params sql_literal
  emit_ch_prepared_sql tq = rewrite_params tq.prepared_sql >>= λ sql. ok (sql_literal quote sql)

  -- The loop of `chIdentifierPrelude`.
  abbrev pub identifier_values : Bool → List TemplatedParam → Text
  identifier_values from_struct [] = []
  identifier_values from_struct (input ∷ inputs) = concat (
      quote input.raw_name.pg_name
      ∷ codes ": "
      ∷ (if from_struct then codes "params." ++ input.upper_name else input.lower_name)
      ∷ separated inputs (identifier_values from_struct inputs)
      ∷ [])
    where
      separated : List TemplatedParam → Text → Text
      separated [] rest = rest
      separated (next ∷ inputs) rest = codes ", " ++ rest

  -- `emitChZeroResult()`.
  abbrev pub emit_ch_zero_result : ResultKind → Text
  emit_ch_zero_result exec = []
  emit_ch_zero_result one = codes "item, "
  emit_ch_zero_result many = codes "nil, "

  -- `chIdentifierPrelude(fromStruct)`.
  unfoldable pub ch_identifier_prelude : TemplatedQuery → Bool → Text
  unfolding ch_identifier_inputs
  ch_identifier_prelude tq from_struct = elim (ch_identifier_inputs tq.inputs) [
    | [] ↦ []
    | input ∷ inputs ↦ concat (
        codes "\n\tsql, err := substituteIdentifiers("
        ∷ tq.sql_var_name
        ∷ codes ", map[string]string{"
        ∷ identifier_values from_struct (input ∷ inputs)
        ∷ codes "})\n\tif err != nil {\n\t\treturn "
        ∷ emit_ch_zero_result tq.result_kind
        ∷ codes "fmt.Errorf("
        ∷ quote (codes "query " ++ (tq.name ++ codes ": %w"))
        ∷ codes ", err)\n\t}"
        ∷ [])
  ]

  -- `EmitChIdentifierPrelude()` and `EmitChVariantIdentifierPrelude()`.
  unfoldable pub emit_ch_identifier_prelude : TemplatedQuery → Text
  unfolding ch_identifier_prelude
  emit_ch_identifier_prelude tq = ch_identifier_prelude tq (not (is_inline_params tq))

  unfoldable pub emit_ch_variant_identifier_prelude : TemplatedQuery → Text
  unfolding ch_identifier_prelude
  emit_ch_variant_identifier_prelude tq = ch_identifier_prelude tq true
