-- ===== src/Codegen/Emit/Structs.antt =====
-- The structs and the literals of internal/codegen/golang/templated_file.go and declarer_row.go.
-- `quote` is `strconv.Quote`.
use pggen.Prelude.{
  ℕ, suc, Bool, false, not, ◌||◌, List, [], ◌∷◌, ◌++◌, map, leb, ◌==◌, if◌then◌else◌, length,
}
use pggen.Prelude.Text.{Text, codes, is_empty}
use pggen.Parser.Annotation.{many, one, exec}
use pggen.Codegen.{
  Dialect, postgres, click_house, TemplatedParam, TemplatedColumn, TemplatedQuery,
  remove_void_columns, is_inline_params,
}
use pggen.Codegen.Emit.{concat, get_longest_input, get_longest_output, longest, padded}

-- `strings.ContainsRune(s, c)`.
abbrev pub contains_rune : ℕ → Text → Bool
contains_rune c [] = false
contains_rune c (d ∷ s) = d == c || contains_rune c s

module _ (quote : Text → Text) where
  -- The line of a field of a params struct.
  unfoldable pub param_line : ℕ → ℕ → TemplatedParam → Text
  param_line name_len type_len out = concat (
      codes "\t"
      ∷ padded name_len out.upper_name
      ∷ padded type_len out.qual_type
      ∷ codes "`json:"
      ∷ quote out.raw_name.pg_name
      ∷ codes "`\n"
      ∷ [])

  -- `EmitParamStruct()`.
  unfoldable pub emit_param_struct : TemplatedQuery → Text
  unfolding get_longest_input param_line
  emit_param_struct tq =
      let (name_len, type_len) = get_longest_input tq.inputs in
      if is_inline_params tq
      then []
      else concat (
          codes "\n\ntype "
          ∷ tq.name
          ∷ codes "Params struct {\n"
          ∷ concat (map (param_line name_len type_len) tq.inputs)
          ∷ codes "}"
          ∷ [])

  -- The loop of `EmitArgNamesContext`.
  abbrev pub quoted_names : List TemplatedParam → Text
  quoted_names [] = []
  quoted_names (input ∷ []) = quote input.raw_name.pg_name
  quoted_names (input ∷ next ∷ inputs) =
      quote input.raw_name.pg_name ++ (codes ", " ++ quoted_names (next ∷ inputs))

  -- `EmitArgNamesContext()`.
  unfoldable pub emit_arg_names_context : TemplatedQuery → Text
  emit_arg_names_context tq = elim tq.inputs [
    | [] ↦ []
    | input ∷ inputs ↦ concat (
        codes "\n\tctx = context.WithValue(ctx, \"pggen_query_args\", []string{"
        ∷ quoted_names (input ∷ inputs)
        ∷ codes "})"
        ∷ [])
  ]

  -- `chTag(pgName)`.
  abbrev pub ch_tag : Text → Text
  ch_tag pg_name = codes "ch:" ++ quote pg_name

  -- The width of the tags of ClickHouse.
  unfoldable pub tag_width : Dialect → List TemplatedColumn → ℕ
  tag_width postgres cols = 0
  tag_width click_house cols = suc (longest (λ c. ch_tag c.pg_name) 0 cols)

  abbrev pub ch_field : Dialect → ℕ → TemplatedColumn → Text
  ch_field postgres width out = []
  ch_field click_house width out = padded width (ch_tag out.pg_name)

  -- The line of a field of a row struct.
  unfoldable pub row_line : Dialect → ℕ → ℕ → ℕ → TemplatedColumn → Text
  row_line dialect name_len type_len tag_len out = concat (
      codes "\t"
      ∷ padded name_len out.upper_name
      ∷ padded type_len out.qual_type
      ∷ codes "`"
      ∷ ch_field dialect tag_len out
      ∷ codes "json:"
      ∷ quote out.pg_name
      ∷ codes "`\n"
      ∷ [])

  -- `writeRowStructFields(sb, cols, dialect)`.
  unfoldable pub row_struct_fields : List TemplatedColumn → Dialect → Text
  unfolding get_longest_output tag_width row_line
  row_struct_fields cols dialect =
      let (name_len, type_len) = get_longest_output cols in
      concat (map (row_line dialect name_len type_len (tag_width dialect cols)) cols)

  -- `SharedRowDeclarer.Declare`.
  unfoldable pub declare_shared_row : Text → List TemplatedColumn → Dialect → Text
  unfolding row_struct_fields
  declare_shared_row name columns dialect = concat (
      codes "type "
      ∷ name
      ∷ codes " struct {\n"
      ∷ row_struct_fields columns dialect
      ∷ codes "}"
      ∷ [])

  -- The row struct of a query that has no shared one.
  unfoldable pub own_row_struct : Text → List TemplatedColumn → Dialect → Text
  unfolding row_struct_fields
  own_row_struct name outs dialect = concat (
      codes "\n\ntype "
      ∷ name
      ∷ codes "Row struct {\n"
      ∷ row_struct_fields outs dialect
      ∷ codes "}"
      ∷ [])

  -- `EmitRowStruct()`.
  unfoldable pub emit_row_struct : TemplatedQuery → Text
  unfolding own_row_struct remove_void_columns
  emit_row_struct tq =
      let outs = remove_void_columns tq.outputs in
      let own =
        if not (is_empty tq.output_type) || leb (length outs) 1
        then []
        else own_row_struct tq.name outs postgres in
      elim tq.result_kind [ exec ↦ [] | one ↦ own | many ↦ own ]

  -- The literal of a query's text, for `EmitPreparedSQL` and `EmitChPreparedSQL`.
  unfoldable pub sql_literal : Text → Text
  sql_literal sql = if contains_rune b'`' sql then quote sql else b'`' ∷ (sql ++ b'`' ∷ [])

  -- `EmitPreparedSQL()`.
  unfoldable pub emit_prepared_sql : TemplatedQuery → Text
  unfolding sql_literal
  emit_prepared_sql tq = sql_literal tq.prepared_sql
