-- ===== src/Codegen/Names.antt =====
-- validateSQLConstNames of internal/codegen/golang/templater.go: the names that the pragma sql=
-- gives to constants of the generated package.
pub mod Reserved
pub mod Unique
use pggen.Prelude.{
  ◌≡◌, refl, ◌≢◌, ◌↔◌, ◌⊎◌, inl, inr, Bool, true, false, ◌&&◌, ◌||◌, List, [], ◌∷◌, ◌++◌, Option,
  none, some, arith, if◌then◌else◌, Bool-cases, Option-cases, All,
}
use pggen.Prelude.Result.{Result, ok, err, ◌>>=◌}
use pggen.Prelude.Text.{Text, codes, eq, eq_iff, is_empty, contains}
use pggen.Codegen.{
  TemplatedQuery, TemplatedFile, is_variant, variant_params_type, row_type_name, all_queries,
}

-- What declares a name: a file, and what in it.
pub record Decl : Type 0 where
  pub file : Text
  pub what : Text

-- A map from names.
abbrev pub Names : Type 0
Names = List (Text × Decl)

unfoldable pub find_name : Names → Text → Option Decl
unfolding eq
find_name [] x = none
find_name ((n, d) ∷ ns) x = if eq n x then some d else find_name ns x

-- `reserve(name, d)`.
unfoldable pub reserve : Text → Decl → Names → Names
unfolding find_name
reserve name d declared =
    if is_empty name
    then declared
    else elim (find_name declared name) [ none ↦ (name, d) ∷ declared | some _ ↦ declared ]

-- The names that a query of a file reserves.
unfoldable pub reserve_query : Text → TemplatedQuery → Names → Names
unfolding reserve
reserve_query path q declared =
    let row : Decl = record { file = path; what = codes "the row struct of " ++ q.name } in
    let params : Decl = record { file = path; what = codes "the params struct of " ++ q.name } in
    let group : Decl = record {
      file = path;
      what = codes "the params struct of " ++ q.variant_group;
    } in
    let own = reserve (q.name ++ codes "Params") params (reserve (row_type_name q) row declared) in
    if is_variant q then reserve (variant_params_type q) group own else own

unfoldable pub reserve_queries : Text → List TemplatedQuery → Names → Names
unfolding reserve_query
reserve_queries path [] declared = declared
reserve_queries path (q ∷ qs) declared = reserve_queries path qs (reserve_query path q declared)

-- The first loop of `validateSQLConstNames`.
unfoldable pub declared_names : List TemplatedFile → Names → Names
unfolding reserve_queries
declared_names [] declared = declared
declared_names (f ∷ fs) declared =
    declared_names fs (reserve_queries f.source_path (all_queries f) declared)

pub data NameError : Type 0 where
  two_queries : (name : Text) (prev : Decl) (query file : Text) → NameError
  also_declared : (query file name : Text) (prev : Decl) → NameError

-- What is known of the name of a query, among the constants and among the structs.
abbrev pub claim :
    Text → TemplatedQuery → Names → Option Decl → Option Decl → Result NameError Names
claim path q by_name (some prev) struct = err (two_queries q.sql_const prev q.name path)
claim path q by_name none (some prev) = err (also_declared q.name path q.sql_const prev)
claim path q by_name none none = ok ((q.sql_const, record { file = path; what = q.name }) ∷ by_name)

-- The body of the second loop. The owner of a name is a file and a query.
unfoldable pub check_const : Names → Text → TemplatedQuery → Names → Result NameError Names
unfolding find_name
check_const declared path q by_name =
    if is_empty q.sql_const
    then ok by_name
    else claim path q by_name (find_name by_name q.sql_const) (find_name declared q.sql_const)

unfoldable pub check_consts : Names → Text → List TemplatedQuery → Names → Result NameError Names
unfolding check_const
check_consts declared path [] by_name = ok by_name
check_consts declared path (q ∷ qs) by_name =
    check_const declared path q by_name >>= check_consts declared path qs

unfoldable pub check_files : Names → List TemplatedFile → Names → Result NameError Names
unfolding check_consts
check_files declared [] by_name = ok by_name
check_files declared (f ∷ fs) by_name =
    check_consts declared f.source_path (all_queries f) by_name >>= check_files declared fs

-- `validateSQLConstNames(files)`.
unfoldable pub validate_sql_const_names : List TemplatedFile → Result NameError (Unit {0})
unfolding declared_names check_files
validate_sql_const_names files = check_files (declared_names files []) files [] >>= λ by_name. ok tt
