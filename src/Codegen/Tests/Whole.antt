-- ===== src/Codegen/Tests/Whole.antt =====
-- TemplateAll on two files of queries, with a resolver that knows one type.
use pggen.Prelude.{◌≡◌, refl, Bool, true, false, List, [], ◌∷◌, map, Option, none}
use pggen.Prelude.Result.{Result, ok, err, Returns}
use pggen.Prelude.Text.{Text, codes, eq, contains, trim_right}
use pggen.Parser.Annotation.{one}
use pggen.Codegen.{postgres, SqlType, of_postgres, TypedQuery, QueryFile, TemplatedFile}
use pggen.GoType.{
  GoType, walk, qualify_type, qualify_leaf, qualified, base_name, extract_short_package, short_of,
  split_on,
}
use pggen.GoType.Imports.{
  add_package, add_import, add_type, before, insert, sort_strings, nonempty_packages,
  sorted_packages, append_short, group_by_short, alias_of, sorted_imports,
}
use pggen.Codegen.Declarers.{
  find_declarer, find_declarers, add_all, add_declarer, collect_type, collect_pg_type_names,
  list_all, new_type_registration,
}
use pggen.Codegen.Templater.{
  leader_loop, leader_index, doc_line, choose_name, partition, resolve_inputs, resolve_outputs,
  resolve_queries, template_inputs, template_outputs, without_terminator, trim_semicolon,
}
use pggen.Codegen.Files.{
  template_all, template_query, template_queries, template_file, template_files, first_packages,
  is_index, finish_files,
}
use pggen.Codegen.Names.{
  find_name, reserve, reserve_query, reserve_queries, declared_names, check_const, check_consts,
  check_files, validate_sql_const_names,
}
use pggen.Codegen.Shared.{build_shared_row_declarers, output_groups, add_queries, merge_all}
use pggen.Codegen.ClickHouse.{emit_ch_has_identifiers, ch_identifier_inputs, is_identifier_input}
use pggen.Codegen.Files.Package.{IsPackage, template_all-IsPackage}
use pggen.Codegen.Tests.{text_type, default_key}

abbrev text_resolver : SqlType → Bool → Text → Result Text GoType
text_resolver t nullable pkg = ok text_type

abbrev same_name : Text → Text
same_name s = s

abbrev no_package : Text → Option Text
no_package path = none

abbrev get_author : TypedQuery
get_author = record {
  name = codes "GetAuthor";
  result_kind = one;
  doc = codes "An author." ∷ [];
  prepared_sql = codes "SELECT name FROM author WHERE id = $1;\n";
  inputs = record { pg_name = codes "id"; sql_type = of_postgres (codes "25") } ∷ [];
  outputs =
      record { pg_name = codes "name"; sql_type = of_postgres (codes "25"); nullable = false } ∷ [];
  output_type = [];
  sql_const = codes "AuthorSQL";
  variant_group = [];
  variant_key = default_key;
}

abbrev two_files : List QueryFile
two_files =
    record { source_path = codes "b.sql"; queries = get_author ∷ [] }
    ∷ record { source_path = codes "a.sql"; queries = [] }
    ∷ []

template_all-IsPackage_example : Returns (IsPackage two_files) (
    template_all text_resolver same_name same_name same_name same_name no_package postgres
      (codes "db")
      3
      two_files)
template_all-IsPackage_example =
    template_all-IsPackage text_resolver same_name same_name same_name same_name no_package postgres
      (codes "db") 3 two_files

-- Of what is returned, the leaders.
abbrev leaders {ℓ κ} : {E : Type ℓ} {A : Type κ} → Result E (List TemplatedFile × A) → List Bool
leaders (err e) = []
leaders (ok r) = map (λ (f : TemplatedFile). f.is_leader) r.0

template_all-leaders :
    leaders (
      template_all text_resolver same_name same_name same_name same_name no_package postgres
        (codes "db")
        3
        two_files)
    ≡ false ∷ true ∷ []
unfolding template_all walk qualify_type qualify_leaf qualified base_name extract_short_package
    short_of split_on add_package add_import add_type before insert sort_strings nonempty_packages
    sorted_packages append_short group_by_short alias_of sorted_imports find_declarer find_declarers
    add_all add_declarer collect_type collect_pg_type_names list_all new_type_registration
    leader_loop leader_index doc_line choose_name partition resolve_inputs resolve_outputs
    resolve_queries template_inputs template_outputs without_terminator trim_semicolon
    template_query template_queries template_file template_files first_packages is_index
    finish_files find_name reserve reserve_query reserve_queries declared_names check_const
    check_consts check_files validate_sql_const_names build_shared_row_declarers output_groups
    add_queries merge_all emit_ch_has_identifiers ch_identifier_inputs is_identifier_input contains
    eq trim_right
template_all-leaders = refl
