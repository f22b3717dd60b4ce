-- ===== src/Codegen/Tests.antt =====
-- Runs of the generator on small queries, and the theorems about it at concrete inputs.
mod Shapes
mod Whole
use pggen.Prelude.{
  ℕ, ◌-◌, ◌≡◌, refl, ◌≢◌, ◌↔◌, Bool, true, false, not, ◌||◌, List, [], ◌∷◌, ◌++◌, map, Option, none,
  some, leb, ◌&&◌, if◌then◌else◌, All, take, get_elem?, arith,
}
use pggen.Prelude.Result.{Result, ok, err}
use pggen.Prelude.Text.{Text, codes, eq, contains, IsDistinct, is_empty, join}
use pggen.Prelude.Decimal.{itoa_ℕ, digits}
use pggen.Parser.Annotation.{ResultKind, many, one, exec}
use pggen.Ch.Types.{ChType, scalar}
use pggen.Ch.Params.{is_identifier}
use pggen.GoType.{
  GoType, opaque_type, pointer_type, void_type, unwrap_nested_type, split_on, base_name,
}
use pggen.GoType.Imports.{ImportPkg, before}
use pggen.Paginate.Predicate.{VariantKey}
use pggen.Codegen.{
  Dialect, postgres, click_house, InputParam, of_click_house, TemplatedParam, TemplatedColumn,
  TemplatedQuery, TemplatedFile, is_variant,
}
use pggen.Codegen.Names.{
  Decl, reserve, find_name, check_const, check_consts, check_files, declared_names,
  validate_sql_const_names,
}
use pggen.Codegen.Names.Unique.{validate_sql_const_names_iff}
use pggen.Codegen.Names.Reserved.{entries, sql_consts, struct_names}
use pggen.Codegen.Templater.{choose_name, partition, leader_index}
use pggen.Codegen.Templater.Leader.{IsLeast, leader_index-IsLeast}
use pggen.Codegen.Templater.Groups.{
  pick, belongs, group_names, NoneEmpty, variants_of, partition_lem,
}
use pggen.Codegen.ImportList.{paths, insert_missing, remove_import}
use pggen.Codegen.ImportList.Kept.{IsImportList, IsImportList-kept}

-- An input of a type of ClickHouse, with the same name in SQL and in Go.
abbrev pub input_named : Text → Text → TemplatedParam
input_named name type_name = record {
  upper_name = name;
  lower_name = name;
  qual_type = codes "string";
  go_type = opaque_type (codes "string");
  raw_name = record { pg_name = name; sql_type = of_click_house (scalar type_name) };
}

abbrev pub column_named : Text → GoType → TemplatedColumn
column_named name t = record {
  pg_name = name;
  upper_name = name;
  lower_name = name;
  go_type = t;
  qual_type = codes "string";
}

abbrev pub default_key : VariantKey
default_key = record { sort_key = []; descending = false; is_default = true }

abbrev pub date_key : Bool → VariantKey
date_key desc = record { sort_key = codes "due_on"; descending = desc; is_default = false }

abbrev pub query_of :
    Text
    → ResultKind
    → List TemplatedParam
    → List TemplatedColumn
    → Text
    → Text
    → VariantKey
    → TemplatedQuery
query_of name kind inputs outputs sql_const group key = record {
  dialect = postgres;
  name = name;
  sql_var_name = name ++ codes "SQL";
  result_kind = kind;
  doc = [];
  prepared_sql = codes "SELECT 1";
  inputs = inputs;
  outputs = outputs;
  inline_param_count = 2;
  output_type = [];
  sql_const = sql_const;
  variant_group = group;
  variant_key = key;
}

abbrev pub text_type : GoType
text_type = opaque_type (codes "string")

abbrev pub find_items : TemplatedQuery
find_items =
    query_of (codes "FindItems") many (input_named (codes "owner") (codes "String") ∷ [])
      (column_named (codes "Id") text_type
        ∷ column_named (codes "Wait") void_type
        ∷ column_named (codes "Name") text_type
        ∷ [])
      (codes "ItemsSQL") [] default_key

abbrev pub list_default : TemplatedQuery
list_default =
    query_of (codes "ListDefault") many (input_named (codes "limit") (codes "UInt64") ∷ []) [] []
      (codes "List") default_key

abbrev pub list_due : TemplatedQuery
list_due =
    query_of (codes "ListDue") many
      (input_named (codes "limit") (codes "UInt64")
        ∷ input_named (codes "after") (codes "Date")
        ∷ [])
      [] [] (codes "List") (date_key true)

abbrev pub file_of : List TemplatedQuery → List TemplatedQuery → TemplatedFile
file_of queries variants = record {
  dialect = click_house;
  pkg_path = [];
  go_pkg = codes "db";
  source_path = codes "items.sql";
  queries = queries;
  imports = [];
  raw_imports = [];
  variants = variants;
  paginate_groups = [];
  is_leader = true;
}

abbrev pub items_file : TemplatedFile
items_file = file_of (find_items ∷ []) (list_default ∷ list_due ∷ [])

validate-items : validate_sql_const_names (items_file ∷ []) ≡ ok tt
unfolding validate_sql_const_names check_const declared_names reserve find_name eq
validate-items = refl

validate_sql_const_names_iff_example : (validate_sql_const_names (items_file ∷ []) ≡ ok tt) ↔ (
    IsDistinct (sql_consts (entries (items_file ∷ [])))
    × All
        (λ c. contains (struct_names (entries (items_file ∷ []))) c ≡ false)
        (sql_consts (entries (items_file ∷ []))))
validate_sql_const_names_iff_example = validate_sql_const_names_iff (items_file ∷ [])

-- The number of an unnamed column among ten or more is written with a blank in front of it.
choose_name-blank : choose_name [] (codes "UnnamedColumn") 3 12 ≡ codes "UnnamedColumn 3"
unfolding choose_name itoa_ℕ digits
choose_name-blank = refl

below_top :
    All (λ q. before (0x10FFFF ∷ []) q ≡ false) (codes "b.sql" ∷ codes "a.sql" ∷ codes "c.sql" ∷ [])
unfolding before
below_top = (refl, (refl, (refl, tt)))

leader_index-IsLeast_example :
    (j : ℕ) × (path : Text) × (leader_index (codes "b.sql" ∷ codes "a.sql" ∷ codes "c.sql" ∷ [])
      ≡ some j)
    × IsLeast (codes "b.sql" ∷ codes "a.sql" ∷ codes "c.sql" ∷ []) j path
leader_index-IsLeast_example =
    leader_index-IsLeast (codes "b.sql" ∷ codes "a.sql" ∷ codes "c.sql" ∷ []) (λ e. cc e) below_top

partition_lem_example :
    (((partition (list_default ∷ find_items ∷ list_due ∷ []) []).0
        ≡ pick (λ q. not (is_variant q)) (list_default ∷ find_items ∷ list_due ∷ []))
      × ((partition (list_default ∷ find_items ∷ list_due ∷ []) []).1
          ≡ pick is_variant (list_default ∷ find_items ∷ list_due ∷ [])))
    × (IsDistinct (group_names (partition (list_default ∷ find_items ∷ list_due ∷ []) []).2)
        × NoneEmpty (partition (list_default ∷ find_items ∷ list_due ∷ []) []).2)
    × ((x : Text)
        → variants_of (partition (list_default ∷ find_items ∷ list_due ∷ []) []).2 x
          ≡ pick (belongs x) (list_default ∷ find_items ∷ list_due ∷ []))
partition_lem_example = partition_lem (list_default ∷ find_items ∷ list_due ∷ [])

abbrev two_imports : List ImportPkg
two_imports =
    record { pkg_path = codes "context"; alias = [] }
    ∷ record { pkg_path = codes "time"; alias = [] }
    ∷ []

two_imports-IsImportList : IsImportList two_imports
unfolding before
two_imports-IsImportList = ((refl, tt), (((λ e. cc e), tt), (tt, tt)))

IsImportList-kept_example :
    (IsImportList (insert_missing two_imports (codes "strings"))
      × IsImportList (remove_import two_imports (codes "strings")))
    × ((x : Text)
        → contains (paths (insert_missing two_imports (codes "strings"))) x
          ≡ (eq (codes "strings") x || contains (paths two_imports) x))
    × ((x : Text)
        → contains (paths (remove_import two_imports (codes "strings"))) x
          ≡ (not (eq (codes "strings") x) && contains (paths two_imports) x))
IsImportList-kept_example = IsImportList-kept two_imports (codes "strings") two_imports-IsImportList
