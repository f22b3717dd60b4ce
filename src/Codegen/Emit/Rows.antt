-- ===== src/Codegen/Emit/Rows.antt =====
-- A row is scanned into the fields of the struct that is declared for it.
use pggen.Prelude.{
  ◌≡◌, refl, ap, ◌≢◌, Bool, true, false, List, [], ◌∷◌, ◌++◌, map, if◌then◌else◌, Bool-cases, All,
  inl, inr,
}
use pggen.Prelude.Result.{ok}
use pggen.Prelude.Text.{Text, codes, join}
use pggen.Parser.Annotation.{ResultKind, many, one, exec}
use pggen.GoType.{unwrap_nested_type}
use pggen.Codegen.{TemplatedColumn, TemplatedQuery, is_void, remove_void_columns}
use pggen.Codegen.Emit.{scan_arg, scan_args, has_only_one, row_scan_args, emit_row_scan_args}

-- The address of the item, where its type is that of the only column, or of a field of it.
abbrev pub target : Bool → TemplatedColumn → Text
target only c = if only then codes "&item" else codes "&item." ++ c.upper_name

-- The arguments for the columns of a query, and the columns that have a field: nothing is scanned
-- into a column of the void type, and each other has its field.
pub data Scans (only : Bool)
    : List TemplatedColumn → List TemplatedColumn → List Text → Type 0 where
  done : Scans only [] [] []
  skipped :
      {fields cols : List TemplatedColumn} {args : List Text} {c : TemplatedColumn}
      → is_void c.go_type ≡ true
      → Scans only fields cols args
      → Scans only fields (c ∷ cols) (codes "nil" ∷ args)
  filled :
      {fields cols : List TemplatedColumn} {args : List Text} {c : TemplatedColumn}
      → is_void c.go_type ≡ false
      → Scans only fields cols args
      → Scans only (c ∷ fields) (c ∷ cols) (target only c ∷ args)

-- No column has the void type below a pointer or an import.
abbrev pub IsPlain : TemplatedColumn → Type 0
IsPlain c = is_void (unwrap_nested_type c.go_type) ≡ is_void c.go_type

scan_args-join :
    (only : Bool) (cols : List TemplatedColumn)
    → scan_args only cols ≡ join (map (scan_arg only) cols) (codes ", ")
unfolding scan_args join
scan_args-join only [] = refl
scan_args-join only (c ∷ []) = refl
scan_args-join only (c ∷ d ∷ cols) =
    ap (λ s. scan_arg only c ++ (codes ", " ++ s)) (scan_args-join only (d ∷ cols))

scan_arg-Scans :
    (only : Bool) (cols : List TemplatedColumn)
    → All IsPlain cols
    → Scans only (remove_void_columns cols) cols (map (scan_arg only) cols)
unfolding scan_arg remove_void_columns
scan_arg-Scans only [] h = done
scan_arg-Scans only (c ∷ cols) h =
    let rest = scan_arg-Scans only cols h.1 in
    elim (Bool-cases (is_void c.go_type)) [
      | inl e ↦ rw (h.0, e) (skipped e rest)
      | inr e ↦ rw (h.0, e) (filled e rest)
    ]

row_scan_args-join :
    (name : Text) (outs : List TemplatedColumn) (kind : ResultKind)
    → kind ≢ exec
    → row_scan_args name outs kind
      ≡ ok (join (map (scan_arg (has_only_one outs)) outs) (codes ", "))
unfolding row_scan_args
row_scan_args-join name outs exec live = absurd (live refl)
row_scan_args-join name outs many live = ap ok (scan_args-join (has_only_one outs) outs)
row_scan_args-join name outs one live = ap ok (scan_args-join (has_only_one outs) outs)

-- The arguments that a row of a query with result columns is scanned into are, joined by
-- commas, one for each column in the order of the columns: nil for a column of the void type,
-- and otherwise the address of the column's own field, in the order of the row struct's
-- columns, or of the whole item where only one column is left. The condition is that no column
-- has the void type below a pointer or an import.
pub emit_row_scan_args-Scans :
    (tq : TemplatedQuery)
    → tq.result_kind ≢ exec
    → All IsPlain tq.outputs
    → (args : List Text) × ((emit_row_scan_args tq ≡ ok (join args (codes ", ")))
        × Scans (has_only_one tq.outputs) (remove_void_columns tq.outputs) tq.outputs args)
unfolding emit_row_scan_args
emit_row_scan_args-Scans tq live plain =
    let only = has_only_one tq.outputs in
    (
      map (scan_arg only) tq.outputs,
      (
        row_scan_args-join tq.name tq.outputs tq.result_kind live,
        scan_arg-Scans only tq.outputs plain,
      ),
    )
