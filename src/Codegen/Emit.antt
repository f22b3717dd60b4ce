-- ===== src/Codegen/Emit.antt =====
-- internal/codegen/golang/templated_file.go and declarer_row.go: the texts of the generated code
-- that a query's parameters and columns are written to. A builder of strings is the list of its
-- writes.
pub mod Structs
pub mod Align
pub mod Rows
use pggen.Prelude.{
  ℕ, zero, suc, ◌+◌, ◌-◌, Bool, true, false, not, ◌&&◌, ◌||◌, List, [], ◌∷◌, ◌++◌, map, Option,
  none, some, ltb, leb, ◌==◌, if◌then◌else◌, length,
}
use pggen.Prelude.Result.{Result, ok, err, ◌>>=◌}
use pggen.Prelude.Text.{Text, codes, is_empty, byte_length, cut_prefix, has_prefix}
use pggen.Parser.Annotation.{ResultKind, many, one, exec}
use pggen.GoType.{unwrap_nested_type}
use pggen.Codegen.{
  Dialect, postgres, click_house, TemplatedParam, TemplatedColumn, TemplatedQuery, is_void,
  remove_void_columns, is_inline_params, row_type_name, is_variant,
}

-- `sb.String()`.
abbrev pub concat : List Text → Text
concat [] = []
concat (s ∷ ss) = s ++ concat ss

-- `strings.Repeat(" ", n)`.
abbrev pub spaces : ℕ → Text
spaces zero = []
spaces (suc n) = b' ' ∷ spaces n

-- The loop for the longest of some texts, from what is the longest so far.
abbrev pub longest {ℓ} : {A : Type ℓ} → (A → Text) → ℕ → List A → ℕ
longest f n [] = n
longest f n (x ∷ xs) = longest f (if ltb n (byte_length (f x)) then byte_length (f x) else n) xs

-- `getLongestInput(inputs)`.
unfoldable pub get_longest_input : List TemplatedParam → ℕ × ℕ
get_longest_input inputs =
    (suc (longest (λ p. p.upper_name) 0 inputs), suc (longest (λ p. p.qual_type) 0 inputs))

-- `getLongestOutput(outs)`.
unfoldable pub get_longest_output : List TemplatedColumn → ℕ × ℕ
get_longest_output outs =
    (suc (longest (λ c. c.upper_name) 0 outs), suc (longest (λ c. c.qual_type) 0 outs))

-- A text, and the blanks behind it up to a width. `strings.Repeat` panics if the text is longer.
abbrev pub padded : ℕ → Text → Text
padded width s = s ++ spaces (width - byte_length s)

-- `EmitParams()`.
unfoldable pub inline_params : List TemplatedParam → Text
inline_params [] = []
inline_params (input ∷ inputs) =
    codes ", " ++ (input.lower_name ++ (b' ' ∷ (input.qual_type ++ inline_params inputs)))

unfoldable pub emit_params : TemplatedQuery → Text
unfolding inline_params
emit_params tq =
    if is_inline_params tq
    then inline_params tq.inputs
    else codes ", params " ++ (tq.name ++ codes "Params")

-- `EmitParamNames()`.
unfoldable pub emit_param_names : TemplatedQuery → Text
emit_param_names tq =
    if is_inline_params tq
    then concat (map (λ (input : TemplatedParam). codes ", " ++ input.lower_name) tq.inputs)
    else concat (
        map (λ (input : TemplatedParam). codes ", " ++ (codes "params." ++ input.upper_name))
          tq.inputs)

-- `EmitVariantParamNames()`.
unfoldable pub emit_variant_param_names : TemplatedQuery → Text
emit_variant_param_names tq =
    concat (map (λ (input : TemplatedParam). codes ", params." ++ input.upper_name) tq.inputs)

pub data EmitError : Type 0 where
  exec_scan : (query : Text) → EmitError
  unhandled_kind : ResultKind → EmitError
  no_result_columns : (query : Text) → EmitError

-- The argument for a column: `nil` for one of the void type.
unfoldable pub scan_arg : Bool → TemplatedColumn → Text
unfolding unwrap_nested_type
scan_arg only out =
    if is_void (unwrap_nested_type out.go_type)
    then codes "nil"
    else if only
    then codes "&item"
    else codes "&item." ++ out.upper_name

-- The loop of `EmitRowScanArgs`.
unfoldable pub scan_args : Bool → List TemplatedColumn → Text
unfolding scan_arg
scan_args only [] = []
scan_args only (out ∷ []) = scan_arg only out
scan_args only (out ∷ next ∷ outs) =
    scan_arg only out ++ (codes ", " ++ scan_args only (next ∷ outs))

-- Whether one column is left without those of the void type.
unfoldable pub has_only_one : List TemplatedColumn → Bool
unfolding remove_void_columns
has_only_one outs = length (remove_void_columns outs) == 1

-- The switch of `EmitRowScanArgs`.
unfoldable pub row_scan_args : Text → List TemplatedColumn → ResultKind → Result EmitError Text
unfolding scan_args has_only_one
row_scan_args name outs exec = err (exec_scan name)
row_scan_args name outs many = ok (scan_args (has_only_one outs) outs)
row_scan_args name outs one = ok (scan_args (has_only_one outs) outs)

-- `EmitRowScanArgs()`.
unfoldable pub emit_row_scan_args : TemplatedQuery → Result EmitError Text
unfolding row_scan_args
emit_row_scan_args tq = row_scan_args tq.name tq.outputs tq.result_kind

-- The type of an item, from the columns that are left.
abbrev pub element_type : Text → Text → List TemplatedColumn → Text
element_type before row [] = codes "pgconn.CommandTag"
element_type before row (out ∷ []) = before ++ out.qual_type
element_type before row (out ∷ next ∷ outs) = before ++ row

-- `EmitResultType()`.
unfoldable pub emit_result_type : TemplatedQuery → Text
unfolding remove_void_columns
emit_result_type tq =
    let outs = remove_void_columns tq.outputs in
    elim tq.result_kind [
      | exec ↦ codes "pgconn.CommandTag"
      | many ↦ element_type (codes "[]") (row_type_name tq) outs
      | one ↦ element_type [] (row_type_name tq) outs
    ]

-- `strings.TrimPrefix(s, p)`.
unfoldable pub trim_prefix : Text → Text → Text
unfolding cut_prefix
trim_prefix s p = elim (cut_prefix s p) [ none ↦ s | some rest ↦ rest ]

-- The declaration of a variable of a type.
unfoldable pub type_init : Text → Text → Text → Text
unfolding has_prefix
type_init name result plain =
    if has_prefix result (codes "[]")
    then name ++ (codes " := " ++ (result ++ codes "{}"))
    else codes "var " ++ (name ++ (b' ' ∷ plain))

-- `EmitResultTypeInit(name)`.
unfoldable pub emit_result_type_init : TemplatedQuery → Text → Result EmitError Text
unfolding emit_result_type type_init trim_prefix
emit_result_type_init tq name =
    let result = emit_result_type tq in
    elim tq.result_kind [
      | one ↦ ok (type_init name result result)
      | many ↦ ok (type_init name result (trim_prefix result (codes "*")))
      | exec ↦ err (unhandled_kind exec)
    ]

-- `EmitResultElem()`.
unfoldable pub emit_result_elem : TemplatedQuery → Text
unfolding emit_result_type trim_prefix
emit_result_elem tq = trim_prefix (trim_prefix (emit_result_type tq) (codes "[]")) (codes "*")

-- `EmitResultExpr(name)`.
unfoldable pub emit_result_expr : TemplatedQuery → Text → Result EmitError Text
unfolding emit_result_type has_prefix
emit_result_expr tq name =
    let result = emit_result_type tq in
    elim tq.result_kind [
      | one ↦ ok name
      | many ↦ ok (
          if has_prefix result (codes "[]*") || has_prefix result (codes "*")
          then b'&' ∷ name
          else name)
      | exec ↦ err (unhandled_kind exec)
    ]
