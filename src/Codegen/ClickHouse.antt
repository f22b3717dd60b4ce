-- ===== src/Codegen/ClickHouse.antt =====
-- internal/codegen/golang/ch_templated_file.go: the parts of a query's generated code that are for
-- ClickHouse.
pub mod Call
pub mod Needs
use pggen.Prelude.{
  ℕ, Bool, true, false, not, ◌&&◌, ◌||◌, List, [], ◌∷◌, ◌++◌, Option, none, some, ltb,
  if◌then◌else◌, length,
}
use pggen.Prelude.Result.{Result, ok, err, ◌>>=◌, map_err}
use pggen.Prelude.Text.{Text, codes, is_empty}
use pggen.Parser.Annotation.{ResultKind, many, one, exec}
use pggen.Ch.Types.{ChType}
use pggen.Ch.Params.{ScanError, is_identifier, rewrite_params}
use pggen.Codegen.{
  TemplatedParam, TemplatedColumn, TemplatedQuery, TemplatedFile, of_click_house, of_postgres,
  click_house, remove_void_columns, is_inline_params, row_type_name, all_queries,
}
use pggen.Codegen.Emit.{EmitError, no_result_columns, concat}
use pggen.Codegen.Emit.Structs.{sql_literal, own_row_struct}

-- `EmitChUsesRowStruct()`.
unfoldable pub emit_ch_uses_row_struct : TemplatedQuery → Bool
unfolding remove_void_columns
emit_ch_uses_row_struct tq = elim tq.result_kind [
  | exec ↦ false
  | many ↦ not (is_empty tq.output_type) || ltb 1 (length (remove_void_columns tq.outputs))
  | one ↦ not (is_empty tq.output_type) || ltb 1 (length (remove_void_columns tq.outputs))
]

abbrev pub only_type : Text → List TemplatedColumn → Result EmitError Text
only_type name (out ∷ []) = ok out.qual_type
only_type name [] = err (no_result_columns name)
only_type name (out ∷ next ∷ outs) = err (no_result_columns name)

-- `EmitChResultElem()`.
unfoldable pub emit_ch_result_elem : TemplatedQuery → Result EmitError Text
unfolding emit_ch_uses_row_struct remove_void_columns
emit_ch_result_elem tq =
    if emit_ch_uses_row_struct tq
    then ok (row_type_name tq)
    else only_type tq.name (remove_void_columns tq.outputs)

abbrev pub slice_of_many : ResultKind → Text → Text
slice_of_many many elem = codes "[]" ++ elem
slice_of_many one elem = elem
slice_of_many exec elem = elem

-- `EmitChResultType()`.
unfoldable pub emit_ch_result_type : TemplatedQuery → Result EmitError Text
unfolding emit_ch_result_elem
emit_ch_result_type tq = emit_ch_result_elem tq >>= λ elem. ok (slice_of_many tq.result_kind elem)

-- `EmitChResultSignature()`.
unfoldable pub emit_ch_result_signature : TemplatedQuery → Result EmitError Text
unfolding emit_ch_result_type
emit_ch_result_signature tq =
    let pair = emit_ch_result_type tq >>= λ result. ok (b'(' ∷ (result ++ codes ", error)")) in
    elim tq.result_kind [ exec ↦ ok (codes "error") | many ↦ pair | one ↦ pair ]

-- `isIdentifier(input)`.
unfoldable pub is_identifier_input : TemplatedParam → Bool
unfolding is_identifier
is_identifier_input input = elim input.raw_name.sql_type [
  | of_postgres key ↦ false
  | of_click_house t ↦ is_identifier t
]

-- `chIdentifierInputs()`.
unfoldable pub ch_identifier_inputs : List TemplatedParam → List TemplatedParam
unfolding is_identifier_input
ch_identifier_inputs [] = []
ch_identifier_inputs (input ∷ inputs) =
    let rest = ch_identifier_inputs inputs in
    if is_identifier_input input then input ∷ rest else rest

-- `EmitChHasIdentifiers()`.
unfoldable pub emit_ch_has_identifiers : TemplatedQuery → Bool
unfolding ch_identifier_inputs
emit_ch_has_identifiers tq = ltb 0 (length (ch_identifier_inputs tq.inputs))

-- `hasChIdentifiers(files)`, of templater.go.
abbrev pub any_query {ℓ} : {A : Type ℓ} → (A → Bool) → List A → Bool
any_query p [] = false
any_query p (q ∷ qs) = p q || any_query p qs

unfoldable pub has_ch_identifiers : List TemplatedFile → Bool
unfolding emit_ch_has_identifiers
has_ch_identifiers fs = any_query (λ f. any_query emit_ch_has_identifiers (all_queries f)) fs

-- `EmitChSQLRef()`.
unfoldable pub emit_ch_sql_ref : TemplatedQuery → Text
unfolding emit_ch_has_identifiers
emit_ch_sql_ref tq = if emit_ch_has_identifiers tq then codes "sql" else tq.sql_var_name

-- `needsClickHouseImport()`.
unfoldable pub needs_click_house_import : TemplatedFile → Bool
unfolding is_identifier_input
needs_click_house_import tf =
    any_query
      (λ (q : TemplatedQuery). any_query (λ input. not (is_identifier_input input)) q.inputs)
      (all_queries tf)

pub record ChConnMethods : Type 0 where
  pub select : Bool
  pub query : Bool
  pub query_row : Bool
  pub exec_method : Bool

-- `needsDriverPkg()`.
abbrev pub needs_driver_pkg : ChConnMethods → Bool
needs_driver_pkg m = m.query || m.query_row

-- The switch of `chConnMethodsOf`, on a kind of result and on whether the items are structs.
abbrev pub method_step : ChConnMethods → ResultKind → Bool → ChConnMethods
method_step m exec row_struct = record {
  select = m.select;
  query = m.query;
  query_row = m.query_row;
  exec_method = true;
}
method_step m one row_struct = record {
  select = m.select;
  query = m.query;
  query_row = true;
  exec_method = m.exec_method;
}
method_step m many true = record {
  select = true;
  query = m.query;
  query_row = m.query_row;
  exec_method = m.exec_method;
}
method_step m many false = record {
  select = m.select;
  query = true;
  query_row = m.query_row;
  exec_method = m.exec_method;
}

unfoldable pub add_method : ChConnMethods → TemplatedQuery → ChConnMethods
unfolding emit_ch_uses_row_struct
add_method m q = method_step m q.result_kind (emit_ch_uses_row_struct q)

unfoldable pub add_methods : ChConnMethods → List TemplatedQuery → ChConnMethods
unfolding add_method
add_methods m [] = m
add_methods m (q ∷ qs) = add_methods (add_method m q) qs

unfoldable pub add_files : ChConnMethods → List TemplatedFile → ChConnMethods
unfolding add_methods
add_files m [] = m
add_files m (f ∷ fs) = add_files (add_methods m (all_queries f)) fs

-- `chConnMethodsOf(files)`.
unfoldable pub ch_conn_methods_of : List TemplatedFile → ChConnMethods
unfolding add_files
ch_conn_methods_of files =
    add_files (record { select = false; query = false; query_row = false; exec_method = false })
      files

-- `EmitChGenericConn()`, for the files of the package.
unfoldable pub emit_ch_generic_conn : List TemplatedFile → Text
unfolding ch_conn_methods_of
emit_ch_generic_conn files =
    let m = ch_conn_methods_of files in
    concat (
      codes "// genericConn is a connection to ClickHouse, like clickhouse.Conn or a\n"
      ∷ codes "// decorator that wraps one.\n"
      ∷ codes "type genericConn interface {\n"
      ∷ (if m.select
          then codes
              "\t// Select runs the query and scans every row into dest, a pointer to a\n\t// slice of structs.\n\tSelect(ctx context.Context, dest any, query string, args ...any) error\n"
          else [])
      ∷ (if m.query
          then codes
              "\tQuery(ctx context.Context, query string, args ...any) (driver.Rows, error)\n"
          else [])
      ∷ (if m.query_row
          then codes "\tQueryRow(ctx context.Context, query string, args ...any) driver.Row\n"
          else [])
      ∷ (if m.exec_method
          then codes "\tExec(ctx context.Context, query string, args ...any) error\n"
          else [])
      ∷ codes "}"
      ∷ [])
