-- ===== src/Codegen/Shared.antt =====
-- buildSharedRowDeclarers of internal/codegen/golang/templater.go: the row structs that the queries
-- with one value of the pragma output= share.
pub mod Known
pub mod Merge
use pggen.Prelude.{
  ℕ, Bool, true, false, not, ◌&&◌, ◌||◌, List, [], ◌∷◌, ◌++◌, map, Option, none, some, ◌==◌,
  if◌then◌else◌, length,
}
use pggen.Prelude.Result.{Result, ok, err, ◌>>=◌}
use pggen.Prelude.Text.{Text, codes, eq, is_empty}
use pggen.GoType.{GoType, pointer_type, base_name}
use pggen.GoType.Imports.{sort_strings}
use pggen.Codegen.{
  Dialect, TemplatedColumn, TemplatedQuery, TemplatedFile, remove_void_columns, all_queries,
}

-- The local type `queryRef`.
pub record QueryRef : Type 0 where
  pub file_name : Text
  pub query_name : Text
  pub outputs : List TemplatedColumn

-- The local type `mergedCol`.
pub record MergedCol : Type 0 where
  pub col : TemplatedColumn
  pub nullable : Bool

-- The map `colByName`.
abbrev pub Cols : Type 0
Cols = List (Text × MergedCol)

pub data SharedError : Type 0 where
  no_output_columns : (output_type query : Text) → SharedError
  column_count : (output_type first query : Text) → SharedError
  column_not_present : (output_type query column : Text) → SharedError
  incompatible_types : (output_type column : Text) (existing new : Text) → SharedError
  nil_column : (column : Text) → SharedError

abbrev pub is_pointer : GoType → Bool
is_pointer (pointer_type elem) = true
is_pointer _ = false

-- `unwrapPointer(t)`.
abbrev pub unwrap_pointer : GoType → GoType
unwrap_pointer (pointer_type elem) = elem
unwrap_pointer t = t

unfoldable pub find_col : Cols → Text → Option MergedCol
unfolding eq
find_col [] x = none
find_col ((n, mc) ∷ cols) x = if eq n x then some mc else find_col cols x

-- The loop over the columns of the first query. A name that is there again replaces the first.
unfoldable pub first_cols : List TemplatedColumn → Cols → Cols
first_cols [] cols = cols
first_cols (c ∷ cs) cols =
    first_cols cs ((c.pg_name, record { col = c; nullable = is_pointer c.go_type }) ∷ cols)

-- `mc.nullable = true` for the column of a name.
unfoldable pub widen : Text → Cols → Cols
unfolding eq
widen x [] = []
widen x ((n, mc) ∷ cols) =
    let later = widen x cols in
    if eq n x then (n, record { col = mc.col; nullable = true }) ∷ cols else (n, mc) ∷ later

-- Whether the types of two columns agree but for a pointer.
unfoldable pub same_base : TemplatedColumn → TemplatedColumn → Bool
unfolding eq base_name
same_base c d = eq (base_name (unwrap_pointer c.go_type)) (base_name (unwrap_pointer d.go_type))

-- A column of a later query, from what the map has of its name.
abbrev pub check_found :
    Text → Text → TemplatedColumn → Cols → Option MergedCol → Result SharedError Cols
check_found output_type query c cols none = err (column_not_present output_type query c.pg_name)
check_found output_type query c cols (some mc) =
    if same_base mc.col c
    then ok (if is_pointer c.go_type then widen c.pg_name cols else cols)
    else err (incompatible_types output_type c.pg_name mc.col.qual_type c.qual_type)

unfoldable pub check_columns : Text → Text → List TemplatedColumn → Cols → Result SharedError Cols
unfolding find_col same_base widen
check_columns output_type query [] cols = ok cols
check_columns output_type query (c ∷ cs) cols =
    check_found output_type query c cols (find_col cols c.pg_name)
    >>= check_columns output_type query cs

-- The loop that validates and merges the later queries.
unfoldable pub check_refs : Text → QueryRef → List QueryRef → Cols → Result SharedError Cols
unfolding check_columns
check_refs output_type first [] cols = ok cols
check_refs output_type first (ref ∷ refs) cols =
    if length ref.outputs == length first.outputs
    then check_columns output_type ref.query_name ref.outputs cols
      >>= check_refs output_type first refs
    else err (column_count output_type first.query_name ref.query_name)

abbrev pub pointered : TemplatedColumn → TemplatedColumn
pointered c = record {
  pg_name = c.pg_name;
  upper_name = c.upper_name;
  lower_name = c.lower_name;
  go_type = pointer_type c.go_type;
  qual_type = codes "*" ++ c.qual_type;
}

abbrev pub widened_column : Bool → TemplatedColumn → TemplatedColumn
widened_column nullable c = if nullable && not (is_pointer c.go_type) then pointered c else c

-- The loop over the names of `colOrder`. A name that the map lacks is a nil pointer, and a panic.
unfoldable pub merged_columns : List Text → Cols → Result SharedError (List TemplatedColumn)
unfolding find_col
merged_columns [] cols = ok []
merged_columns (n ∷ ns) cols = elim (find_col cols n) [
  | none ↦ err (nil_column n)
  | some mc ↦ merged_columns ns cols >>= λ merged. ok (widened_column mc.nullable mc.col ∷ merged)
]

-- The merge, on the columns of the first query.
unfoldable pub merge_columns :
    Text
    → QueryRef
    → List QueryRef
    → List TemplatedColumn
    → Result SharedError (List TemplatedColumn)
unfolding first_cols check_refs merged_columns
merge_columns output_type first refs [] = err (no_output_columns output_type first.query_name)
merge_columns output_type first refs (c ∷ cs) =
    check_refs output_type first refs (first_cols (c ∷ cs) [])
    >>= merged_columns (map (λ (c : TemplatedColumn). c.pg_name) (c ∷ cs))

-- The columns of the struct of one output type.
unfoldable pub merge_group :
    Text → QueryRef → List QueryRef → Result SharedError (List TemplatedColumn)
unfolding merge_columns
merge_group output_type first refs = merge_columns output_type first refs first.outputs

-- The map of the groups.
abbrev pub Groups : Type 0
Groups = List (Text × List QueryRef)

unfoldable pub add_ref : Text → QueryRef → Groups → Groups
unfolding eq
add_ref n ref [] = (n, ref ∷ []) ∷ []
add_ref n ref ((m, refs) ∷ groups) =
    let later = add_ref n ref groups in
    if eq m n then (m, refs ++ ref ∷ []) ∷ groups else (m, refs) ∷ later

unfoldable pub add_queries : Text → List TemplatedQuery → Groups → Groups
unfolding add_ref remove_void_columns
add_queries path [] groups = groups
add_queries path (q ∷ qs) groups =
    let ref : QueryRef = record {
      file_name = path;
      query_name = q.name;
      outputs = remove_void_columns q.outputs;
    } in
    add_queries path qs
      (if is_empty q.output_type then groups else add_ref q.output_type ref groups)

unfoldable pub output_groups : List TemplatedFile → Groups → Groups
unfolding add_queries
output_groups [] groups = groups
output_groups (f ∷ fs) groups = output_groups fs (add_queries f.source_path (all_queries f) groups)

abbrev pub group_of : Groups → Text → List QueryRef
group_of [] n = []
group_of ((m, refs) ∷ groups) n = if eq m n then refs else group_of groups n

-- A `SharedRowDeclarer`.
pub record SharedRow : Type 0 where
  pub name : Text
  pub columns : List TemplatedColumn

unfoldable pub merge_named : Text → List QueryRef → Result SharedError SharedRow
unfolding merge_group
merge_named n [] = err (nil_column n)
merge_named n (first ∷ refs) =
    merge_group n first refs >>= λ merged. ok (record { name = n; columns = merged })

unfoldable pub merge_all : Groups → List Text → Result SharedError (List SharedRow)
unfolding merge_named
merge_all groups [] = ok []
merge_all groups (n ∷ ns) =
    merge_named n (group_of groups n) >>= λ row. merge_all groups ns >>= λ rows. ok (row ∷ rows)

-- `buildSharedRowDeclarers(files)`.
unfoldable pub build_shared_row_declarers : List TemplatedFile → Result SharedError (List SharedRow)
unfolding output_groups sort_strings merge_all
build_shared_row_declarers files =
    let groups = output_groups files [] in
    merge_all groups (sort_strings (map (λ (g : Text × List QueryRef). g.0) groups))
