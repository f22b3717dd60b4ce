-- ===== src/Codegen.antt =====
-- internal/codegen/golang/templated_file.go and internal/codegen: what a file of generated code is
-- made from. The children are about the functions that write its parts.
pub mod Names
pub mod Emit
pub mod ClickHouse
pub mod Group
pub mod Shared
pub mod ImportList
pub mod Declarers
pub mod Templater
pub mod Files
mod Tests
use pggen.Prelude.{ℕ, Bool, true, false, not, List, [], ◌∷◌, ◌++◌, leb, if◌then◌else◌, length}
use pggen.Prelude.Text.{Text, codes, is_empty}
use pggen.Parser.Annotation.{ResultKind}
use pggen.Ch.Types.{ChType}
use pggen.Paginate.Predicate.{VariantKey}
use pggen.GoType.{GoType, void_type}
use pggen.GoType.Imports.{ImportPkg}

-- The constants of the type `Dialect`.
pub data Dialect : Type 0 where
  postgres click_house : Dialect

-- The interface `sqltype.Type`: a type of ClickHouse, or one of Postgres by its key, which the
-- functions here hand on to the resolver of types.
pub data SqlType : Type 0 where
  of_click_house : ChType → SqlType
  of_postgres : Text → SqlType

pub record InputParam : Type 0 where
  pub pg_name : Text
  pub sql_type : SqlType

pub record OutputColumn : Type 0 where
  pub pg_name : Text
  pub sql_type : SqlType
  pub nullable : Bool

-- `TypedQuery` and `QueryFile` of internal/codegen. The generator does not read the proto type.
pub record TypedQuery : Type 0 where
  pub name : Text
  pub result_kind : ResultKind
  pub doc : List Text
  pub prepared_sql : Text
  pub inputs : List InputParam
  pub outputs : List OutputColumn
  pub output_type : Text
  pub sql_const : Text
  pub variant_group : Text
  pub variant_key : VariantKey

pub record QueryFile : Type 0 where
  pub source_path : Text
  pub queries : List TypedQuery

pub record TemplatedParam : Type 0 where
  pub upper_name : Text
  pub lower_name : Text
  pub qual_type : Text
  pub go_type : GoType
  pub raw_name : InputParam

pub record TemplatedColumn : Type 0 where
  pub pg_name : Text
  pub upper_name : Text
  pub lower_name : Text
  pub go_type : GoType
  pub qual_type : Text

pub record TemplatedQuery : Type 0 where
  pub dialect : Dialect
  pub name : Text
  pub sql_var_name : Text
  pub result_kind : ResultKind
  pub doc : Text
  pub prepared_sql : Text
  pub inputs : List TemplatedParam
  pub outputs : List TemplatedColumn
  pub inline_param_count : ℕ
  pub output_type : Text
  pub sql_const : Text
  pub variant_group : Text
  pub variant_key : VariantKey

-- A constant of the generated code for a sort key.
pub record SortKeyConst : Type 0 where
  pub const_name : Text
  pub value : Text

pub record PaginateGroup : Type 0 where
  pub name : Text
  pub params_type_name : Text
  pub unified_inputs : List TemplatedParam
  pub sort_key_consts : List SortKeyConst
  pub variants : List TemplatedQuery

pub record TemplatedFile : Type 0 where
  pub dialect : Dialect
  pub pkg_path : Text
  pub go_pkg : Text
  pub source_path : Text
  pub queries : List TemplatedQuery
  pub imports : List ImportPkg
  pub raw_imports : List Text
  pub variants : List TemplatedQuery
  pub paginate_groups : List PaginateGroup
  pub is_leader : Bool

-- `IsVariant()`.
abbrev pub is_variant : TemplatedQuery → Bool
is_variant tq = not (is_empty tq.variant_group)

-- `VariantParamsType()`.
abbrev pub variant_params_type : TemplatedQuery → Text
variant_params_type tq = tq.variant_group ++ codes "Params"

-- `rowTypeName()`.
abbrev pub row_type_name : TemplatedQuery → Text
row_type_name tq = if is_empty tq.output_type then tq.name ++ codes "Row" else tq.output_type

-- `isInlineParams()`.
abbrev pub is_inline_params : TemplatedQuery → Bool
is_inline_params tq = leb (length tq.inputs) tq.inline_param_count

-- `allQueries(f)`.
abbrev pub all_queries : TemplatedFile → List TemplatedQuery
all_queries f = f.queries ++ f.variants

-- The test for a `*gotype.VoidType`.
abbrev pub is_void : GoType → Bool
is_void void_type = true
is_void _ = false

-- `removeVoidColumns(cols)`.
unfoldable pub remove_void_columns : List TemplatedColumn → List TemplatedColumn
remove_void_columns [] = []
remove_void_columns (col ∷ cols) =
    let outs = remove_void_columns cols in if is_void col.go_type then outs else col ∷ outs
