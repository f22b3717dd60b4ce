-- ===== src/Codegen/Files.antt =====
-- templateFile and TemplateAll of internal/codegen/golang/templater.go, over the loops of
-- Codegen/Templater.antt and with the same parameters.
pub mod Package
use pggen.Prelude.{
  ℕ, suc, Bool, true, false, not, ◌&&◌, ◌||◌, List, [], ◌∷◌, ◌++◌, map, Option, none, some, ◌==◌,
  if◌then◌else◌, length,
}
use pggen.Prelude.Result.{Result, ok, err, ◌>>=◌, map_err}
use pggen.Prelude.Text.{Text, codes, is_empty}
use pggen.Parser.Annotation.{ResultKind, many, one, exec}
use pggen.GoType.Imports.{
  ImportPkg, add_package, sorted_imports, sorted_packages, group_by_short, aliases_of, alias_of,
}
use pggen.Codegen.{
  Dialect, postgres, click_house, SqlType, QueryFile, TemplatedQuery, TemplatedFile,
}
use pggen.GoType.{GoType}
use pggen.Codegen.ClickHouse.{
  emit_ch_has_identifiers, has_ch_identifiers, needs_click_house_import, ch_conn_methods_of,
  needs_driver_pkg, any_query,
}
use pggen.Codegen.Declarers.{
  Declarer, collect_name, identifier_declarer, shared_row_declarer, new_type_registration, add_all,
  list_all,
}
use pggen.Codegen.Group.{build_paginate_group}
use pggen.Codegen.ImportList.{insert_missing, remove_import}
use pggen.Codegen.Names.{NameError, validate_sql_const_names}
use pggen.Codegen.Shared.{SharedError, build_shared_row_declarers}
use pggen.Codegen.Templater.{
  leader_index, doc_text, named_query, partition, Gathered, TemplateError, resolve_queries,
  QueryData, or_panic, template_inputs, template_outputs,
}

abbrev pub clickhouse_go : Text
clickhouse_go = codes "github.com/ClickHouse/clickhouse-go/v2"

abbrev pub driver_pkg : Text
driver_pkg = codes "github.com/ClickHouse/clickhouse-go/v2/lib/driver"

abbrev pub pgconn_pkg : Text
pgconn_pkg = codes "github.com/jackc/pgx/v5/pgconn"

-- The packages that a file starts with.
unfoldable pub first_packages : Dialect → List Text
unfolding add_package
first_packages click_house =
    add_package driver_pkg
      (add_package clickhouse_go (add_package (codes "fmt") (add_package (codes "context") [])))
first_packages postgres =
    add_package (codes "github.com/jackc/pgx/v5")
      (add_package pgconn_pkg (add_package (codes "fmt") (add_package (codes "context") [])))

-- `needsPgconnImport()`.
abbrev pub is_exec : ResultKind → Bool
is_exec exec = true
is_exec many = false
is_exec one = false

abbrev pub needs_pgconn_import : TemplatedFile → Bool
needs_pgconn_import tf = elim tf.dialect [
  | click_house ↦ false
  | postgres ↦ tf.is_leader || any_query (λ (q : TemplatedQuery). is_exec q.result_kind) tf.queries
]

-- `goQueryFiles[i].Imports = ...`.
abbrev pub with_imports : (List ImportPkg → List ImportPkg) → TemplatedFile → TemplatedFile
with_imports change f = record {
  dialect = f.dialect;
  pkg_path = f.pkg_path;
  go_pkg = f.go_pkg;
  source_path = f.source_path;
  queries = f.queries;
  imports = change f.imports;
  raw_imports = f.raw_imports;
  variants = f.variants;
  paginate_groups = f.paginate_groups;
  is_leader = f.is_leader;
}

abbrev pub removed_if : Bool → Text → List ImportPkg → List ImportPkg
removed_if test p imports = if test then remove_import imports p else imports

-- The imports that a file turned out not to need. `driver` says whether the connection of the package
-- names the driver's package.
unfoldable pub needed_imports : Bool → TemplatedFile → Dialect → List ImportPkg → List ImportPkg
unfolding remove_import needs_click_house_import
needed_imports driver f click_house imports =
    removed_if (not f.is_leader || not driver) driver_pkg
      (removed_if (not (needs_click_house_import f)) clickhouse_go imports)
needed_imports driver f postgres imports =
    removed_if (not (needs_pgconn_import f)) pgconn_pkg imports

unfoldable pub drop_imports : Bool → TemplatedFile → TemplatedFile
unfolding needed_imports
drop_imports driver f = with_imports (needed_imports driver f f.dialect) f

-- The strings import of the leader.
unfoldable pub add_strings : Bool → TemplatedFile → TemplatedFile
unfolding insert_missing
add_strings needed f =
    with_imports
      (λ imports.
        if needed && f.is_leader then insert_missing imports (codes "strings") else imports)
      f

abbrev pub is_nil : List Text → Bool
is_nil [] = true
is_nil (n ∷ ns) = false

-- The names of a set added to another.
abbrev pub union : List Text → List Text → List Text
union [] names = names
union (n ∷ ns) names = collect_name n (union ns names)

-- The leader, by its index.
unfoldable pub is_index : Option ℕ → ℕ → Bool
is_index none i = false
is_index (some j) i = i == j

pub data FileError {ℓ} (E : Type ℓ) : Type ℓ where
  in_file : (path : Text) → TemplateError E → FileError E
  bad_name : NameError → FileError E
  bad_rows : SharedError → FileError E
  no_leader : FileError E

-- The removal of a file's import of its own package.
unfoldable pub foreign_imports : Option Text → List ImportPkg → List ImportPkg
unfolding remove_import
foreign_imports none imports = imports
foreign_imports (some p) imports = removed_if (not (is_empty p)) p imports

-- `goQueryFiles[firstIndex]`, which is out of range without a leader.
abbrev pub with_leader {ℓ κ} : {E : Type ℓ} {A : Type κ} → Option ℕ → A → Result (FileError E) A
with_leader none a = err no_leader
with_leader (some i) a = ok a

module _ {ℓ} {E : Type ℓ} (resolve : SqlType → Bool → Text → Result E GoType)
    (to_upper_ident to_lower_ident to_lower to_upper : Text → Text)
    (guess_package : Text → Option Text) (dialect : Dialect) (go_pkg : Text)
    (inline_param_count : ℕ) where
  -- The second pass, for a query.
  unfoldable pub template_query :
      Text → (Text → Text) → QueryData resolve → Result (TemplateError E) TemplatedQuery
  unfolding template_inputs template_outputs
  template_query pkg aliases (q, input_types, output_types) =
      template_inputs resolve to_upper_ident to_lower_ident pkg aliases 0 (length q.inputs) q.inputs
        input_types
      >>= λ inputs.
          template_outputs resolve to_upper_ident to_lower_ident pkg aliases 0 (length q.outputs)
            q.outputs output_types
          >>= λ outputs. ok (
              named_query to_lower to_upper (record {
                dialect = dialect;
                name = to_upper_ident q.name;
                sql_var_name = to_lower_ident q.name ++ codes "SQL";
                result_kind = q.result_kind;
                doc = doc_text q.doc;
                prepared_sql = q.prepared_sql;
                inputs = inputs;
                outputs = outputs;
                inline_param_count = inline_param_count;
                output_type = q.output_type;
                sql_const = q.sql_const;
                variant_group = q.variant_group;
                variant_key = q.variant_key;
              }))

  unfoldable pub template_queries :
      Text
      → (Text → Text)
      → List (QueryData resolve)
      → Result (TemplateError E) (List TemplatedQuery)
  unfolding template_query
  template_queries pkg aliases [] = ok []
  template_queries pkg aliases (d ∷ ds) =
      template_query pkg aliases d >>= λ q. template_queries pkg aliases ds >>= λ qs. ok (q ∷ qs)

  -- `templateFile(file, isLeader)`.
  unfoldable pub template_file :
      QueryFile → Bool → Result (TemplateError E) (TemplatedFile × List Declarer × List Text)
  unfolding resolve_queries template_queries partition sorted_imports sorted_packages group_by_short
      alias_of first_packages add_all build_paginate_group emit_ch_has_identifiers
  template_file file is_leader =
      let pkg_path : Text = elim (guess_package file.source_path) [ none ↦ [] | some p ↦ p ] in
      let start : Gathered = record {
        imports = first_packages dialect;
        declarers = [];
        pg_type_names = [];
      } in
      resolve_queries resolve pkg_path file.queries start >>= λ (datas, g).
      or_panic resolve (group_by_short (sorted_packages g.imports) []) >>= λ groups.
      or_panic resolve (sorted_imports g.imports) >>= λ imports.
      template_queries pkg_path (alias_of (aliases_of groups)) datas >>= λ queries.
      let (regular, variants, grouped) = partition queries [] in
      let identifiers : List Declarer =
        if any_query emit_ch_has_identifiers queries then identifier_declarer ∷ [] else [] in
      ok (
        record {
          dialect = dialect;
          pkg_path = pkg_path;
          go_pkg = go_pkg;
          source_path = file.source_path;
          queries = regular;
          imports = imports;
          raw_imports = sorted_packages g.imports;
          variants = variants;
          paginate_groups =
              map
                (λ (n : Text × List TemplatedQuery). build_paginate_group to_lower to_upper n.0 n.1)
                grouped;
          is_leader = is_leader;
        },
        add_all g.declarers identifiers,
        g.pg_type_names,
      )

  -- The loop over the files, with their indices.
  unfoldable pub template_files :
      Option ℕ
      → ℕ
      → List QueryFile
      → Result (FileError E) (List TemplatedFile × List Declarer × List Text)
  unfolding template_file is_index list_all add_all
  template_files leader i [] = ok ([], [], [])
  template_files leader i (f ∷ fs) =
      map_err (in_file f.source_path) (template_file f (is_index leader i))
      >>= λ (tf, decls, names). template_files leader (suc i) fs >>= λ (tfs, decls', names').
          ok (tf ∷ tfs, list_all decls ++ decls', union names names')

  unfoldable pub drop_self : TemplatedFile → TemplatedFile
  unfolding foreign_imports
  drop_self f = with_imports (foreign_imports (guess_package f.source_path)) f

  -- The changes of the files' imports. `driver` and `identifiers` are read from all files.
  unfoldable pub finish_files : Bool → Bool → List TemplatedFile → List TemplatedFile
  unfolding drop_imports add_strings drop_self
  finish_files driver identifiers [] = []
  finish_files driver identifiers (f ∷ fs) =
      drop_self (drop_imports driver (add_strings identifiers f))
      ∷ finish_files driver identifiers fs

  -- `TemplateAll(files)`: the files, and the declarers of the leader. Without a leader, an index is out
  -- of range.
  unfoldable pub template_all :
      List QueryFile → Result (FileError E) (List TemplatedFile × List Declarer)
  unfolding template_files leader_index validate_sql_const_names build_shared_row_declarers
      finish_files has_ch_identifiers ch_conn_methods_of add_all list_all new_type_registration
  template_all files =
      let leader = leader_index (map (λ (f : QueryFile). f.source_path) files) in
      template_files leader 0 files >>= λ (tfs, decls, names).
      map_err bad_name (validate_sql_const_names tfs) >>= λ checked.
      map_err bad_rows (build_shared_row_declarers tfs) >>= λ rows.
      let registered : List Declarer = elim dialect [
        | click_house ↦ []
        | postgres ↦ if is_nil names then [] else new_type_registration names ∷ []
      ] in
      let all_decls =
        add_all (add_all (add_all [] decls) registered) (map shared_row_declarer rows) in
      with_leader leader (
        finish_files (needs_driver_pkg (ch_conn_methods_of tfs)) (has_ch_identifiers tfs) tfs,
        list_all all_decls,
      )
