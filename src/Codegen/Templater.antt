-- ===== src/Codegen/Templater.antt =====
-- internal/codegen/golang/templater.go: the files of generated code that query files are turned
-- into. The resolver of types, the Caser's two functions, gomod.GuessPackage and the functions of the
-- package strings on case are parameters.
pub mod Leader
pub mod Groups
use pggen.Prelude.{
  ℕ, zero, suc, ◌+◌, ◌-◌, Bool, true, false, not, ◌&&◌, ◌||◌, List, [], ◌∷◌, ◌++◌, map, Option,
  none, some, ◌==◌, ltb, if◌then◌else◌, length,
}
use pggen.Prelude.Decimal.{itoa_ℕ}
use pggen.Prelude.Result.{Result, ok, err, ◌>>=◌, map_err}
use pggen.Prelude.Text.{Text, codes, eq, is_empty, contains, trim_right, byte_length}
use pggen.GoType.{GoType, qualify_type}
use pggen.GoType.Imports.{ImportPkg, before, add_package, add_type, sorted_imports, sorted_packages}
use pggen.Codegen.{
  Dialect, postgres, click_house, SqlType, InputParam, OutputColumn, TypedQuery, QueryFile,
  TemplatedParam, TemplatedColumn, TemplatedQuery, TemplatedFile, PaginateGroup, is_variant,
}
use pggen.Codegen.Emit.{spaces}
use pggen.Codegen.ClickHouse.{
  emit_ch_has_identifiers, has_ch_identifiers, needs_click_house_import, ch_conn_methods_of,
  needs_driver_pkg,
}
use pggen.Codegen.Declarers.{
  Declarer, identifier_declarer, add_all, find_declarers, collect_pg_type_names,
}
use pggen.Codegen.Group.{build_paginate_group, variant_method_name}
use pggen.Codegen.ImportList.{paths, insert_missing, remove_import, has_import}
use pggen.Parser.Annotation.{ResultKind, many, one, exec}

-- The loop that picks the leader: the index of a file whose path is less than all before it.
unfoldable pub leader_loop : ℕ → Option ℕ → Text → List Text → Option ℕ
unfolding before
leader_loop i found least [] = found
leader_loop i found least (path ∷ sources) =
    let less = leader_loop (suc i) (some i) path sources in
    let rest = leader_loop (suc i) found least sources in if before least path then rest else less

-- `firstIndex`, where `none` is -1. The first name is `string(unicode.MaxRune)`.
unfoldable pub leader_index : List Text → Option ℕ
unfolding leader_loop
leader_index sources = leader_loop 0 none (0x10FFFF ∷ []) sources

-- The comment of a query.
unfoldable pub doc_line : Text → Text
doc_line d = (if is_empty d then codes "//" else codes "// " ++ d) ++ codes "\n"

abbrev pub more_doc : List Text → Text
more_doc [] = []
more_doc (d ∷ ds) = codes "\t" ++ (doc_line d ++ more_doc ds)

abbrev pub doc_text : List Text → Text
doc_text [] = []
doc_text (d ∷ ds) = doc_line d ++ more_doc ds

-- `fmt.Sprintf("%2d", idx)`.
abbrev pub two_wide : Text → Text
two_wide s = spaces (2 - length s) ++ s

-- `chooseUpperName` and `chooseLowerName`, on the name that the Caser makes.
unfoldable pub choose_name : Text → Text → ℕ → ℕ → Text
unfolding itoa_ℕ
choose_name name fallback idx num_options =
    if is_empty name
    then fallback ++ (if ltb 9 num_options then two_wide (itoa_ℕ idx) else itoa_ℕ idx)
    else name

-- The last loop of templateFile: the groups in the order in which they are first seen.
unfoldable pub add_variant :
    TemplatedQuery → List (Text × List TemplatedQuery) → List (Text × List TemplatedQuery)
unfolding eq
add_variant q [] = (q.variant_group, q ∷ []) ∷ []
add_variant q ((name, qs) ∷ groups) =
    let later = add_variant q groups in
    if eq name q.variant_group then (name, qs ++ q ∷ []) ∷ groups else (name, qs) ∷ later

abbrev pub VariantGroups : Type 0
VariantGroups = List (Text × List TemplatedQuery)

unfoldable pub partition :
    List TemplatedQuery → VariantGroups → List TemplatedQuery × List TemplatedQuery × VariantGroups
unfolding add_variant
partition [] groups = ([], [], groups)
partition (q ∷ qs) groups =
    let (regular, variants, groups') = partition qs groups in
    let (regular_v, variants_v, groups_v) = partition qs (add_variant q groups) in
    if is_variant q then (regular_v, q ∷ variants_v, groups_v) else (q ∷ regular, variants, groups')

-- `strings.TrimRight(sql, " \t\n")` and `strings.TrimSuffix(sql, ";")`.
abbrev pub is_blank_end : ℕ → Bool
is_blank_end c = c == b' ' || c == b'\t' || c == b'\n'

unfoldable pub trim_semicolon : Text → Text
trim_semicolon [] = []
trim_semicolon (c ∷ []) = if c == b';' then [] else c ∷ []
trim_semicolon (c ∷ d ∷ s) = c ∷ trim_semicolon (d ∷ s)

unfoldable pub without_terminator : Text → Text
unfolding trim_semicolon trim_right
without_terminator sql = trim_semicolon (trim_right is_blank_end sql)

-- What the first pass over the queries of a file gathers.
pub record Gathered : Type 0 where
  pub imports : List Text
  pub declarers : List Declarer
  pub pg_type_names : List Text

pub data TemplateError {ℓ} (E : Type ℓ) : Type ℓ where
  bad_parameter : (query parameter : Text) → E → TemplateError E
  bad_output : (query column : Text) → E → TemplateError E
  panicked : TemplateError E

abbrev pub gather : GoType → Gathered → Gathered
gather t g = record {
  imports = add_type g.imports t;
  declarers = add_all g.declarers (find_declarers t);
  pg_type_names = collect_pg_type_names t g.pg_type_names;
}

module _ {ℓ} {E : Type ℓ} (resolve : SqlType → Bool → Text → Result E GoType) where
  -- The loops that resolve the inputs and the outputs of a query.
  unfoldable pub resolve_inputs :
      Text → Text → List InputParam → Gathered → Result (TemplateError E) (List GoType × Gathered)
  resolve_inputs pkg query [] g = ok ([], g)
  resolve_inputs pkg query (input ∷ inputs) g =
      map_err (bad_parameter query input.pg_name) (resolve input.sql_type false pkg) >>= λ t.
      resolve_inputs pkg query inputs (gather t g) >>= λ (ts, g'). ok (t ∷ ts, g')

  unfoldable pub resolve_outputs :
      Text → Text → List OutputColumn → Gathered → Result (TemplateError E) (List GoType × Gathered)
  resolve_outputs pkg query [] g = ok ([], g)
  resolve_outputs pkg query (out ∷ outs) g =
      map_err (bad_output query out.pg_name) (resolve out.sql_type out.nullable pkg) >>= λ t.
      resolve_outputs pkg query outs (gather t g) >>= λ (ts, g'). ok (t ∷ ts, g')

  -- The local type `queryData`, without the comment.
  abbrev pub QueryData : Type 0
  QueryData = TypedQuery × List GoType × List GoType

  -- The first pass.
  unfoldable pub resolve_queries :
      Text → List TypedQuery → Gathered → Result (TemplateError E) (List QueryData × Gathered)
  unfolding resolve_inputs resolve_outputs
  resolve_queries pkg [] g = ok ([], g)
  resolve_queries pkg (q ∷ qs) g = resolve_inputs pkg q.name q.inputs g >>= λ (inputs, g1).
      resolve_outputs pkg q.name q.outputs g1 >>= λ (outputs, g2).
      resolve_queries pkg qs g2 >>= λ (rest, g3). ok ((q, inputs, outputs) ∷ rest, g3)

  abbrev pub or_panic {κ} : {A : Type κ} → Option A → Result (TemplateError E) A
  or_panic none = err panicked
  or_panic (some a) = ok a

  module _ (to_upper_ident to_lower_ident : Text → Text) (pkg : Text) (aliases : Text → Text) where
    -- The loops of the second pass. There is a type for each input and each output.
    unfoldable pub template_inputs :
        ℕ → ℕ → List InputParam → List GoType → Result (TemplateError E) (List TemplatedParam)
    unfolding choose_name
    template_inputs i num [] ts = ok []
    template_inputs i num (input ∷ inputs) [] = err panicked
    template_inputs i num (input ∷ inputs) (t ∷ ts) =
        or_panic (qualify_type pkg aliases t) >>= λ qual.
        template_inputs (suc i) num inputs ts >>= λ rest. ok (
          record {
            upper_name = choose_name (to_upper_ident input.pg_name) (codes "UnnamedParam") i num;
            lower_name = choose_name (to_lower_ident input.pg_name) (codes "unnamedParam") i num;
            qual_type = qual;
            go_type = t;
            raw_name = input;
          }
          ∷ rest)

    unfoldable pub template_outputs :
        ℕ → ℕ → List OutputColumn → List GoType → Result (TemplateError E) (List TemplatedColumn)
    unfolding choose_name
    template_outputs i num [] ts = ok []
    template_outputs i num (out ∷ outs) [] = err panicked
    template_outputs i num (out ∷ outs) (t ∷ ts) = or_panic (qualify_type pkg aliases t) >>= λ qual.
        template_outputs (suc i) num outs ts >>= λ rest. ok (
          record {
            pg_name = out.pg_name;
            upper_name = choose_name (to_upper_ident out.pg_name) (codes "UnnamedColumn") i num;
            lower_name = choose_name (to_lower_ident out.pg_name) (codes "UnnamedColumn") i num;
            go_type = t;
            qual_type = qual;
          }
          ∷ rest)

-- The names of a query's constant and its text, behind the record is built.
abbrev pub named_query : (Text → Text) → (Text → Text) → TemplatedQuery → TemplatedQuery
named_query to_lower to_upper tq =
    let own =
      if is_variant tq
      then variant_method_name to_lower to_upper tq ++ codes "SQL"
      else tq.sql_var_name in
    let exported = not (is_empty tq.sql_const) in
    record {
      dialect = tq.dialect;
      name = tq.name;
      sql_var_name = if exported then tq.sql_const else own;
      result_kind = tq.result_kind;
      doc = tq.doc;
      prepared_sql = if exported then without_terminator tq.prepared_sql else tq.prepared_sql;
      inputs = tq.inputs;
      outputs = tq.outputs;
      inline_param_count = tq.inline_param_count;
      output_type = tq.output_type;
      sql_const = tq.sql_const;
      variant_group = tq.variant_group;
      variant_key = tq.variant_key;
    }
