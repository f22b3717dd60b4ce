-- ===== src/Paginate/Check.antt =====
-- What `parseSortSpec` checks of a specification once its lines are read, and `collectSortSpecs`.
use pggen.Prelude.{
  ℕ, Bool, true, false, ◌||◌, List, [], ◌∷◌, ◌++◌, map, Option, none, some, ◌==◌, if◌then◌else◌,
}
use pggen.Prelude.Result.{Result, ok, err, ◌>>=◌}
use pggen.Prelude.Text.{Text, codes, eq, trim_space, cut_prefix, has_prefix, cut}
use pggen.Paginate.Spec.{
  SortKey, SortSpec, SpecError, no_key, no_default, no_binding, not_a_parameter, not_nullable,
  duplicate_spec, is_keyset, binding_of, strip_comment, sort_block_name, read_lines,
  nullable_columns, validate_nullable,
}

-- `strings.CutSuffix(s, suffix)` at a suffix of one byte.
unfoldable pub cut_last : Text → ℕ → Option Text
cut_last [] suffix = none
cut_last (c ∷ []) suffix = if c == suffix then some [] else none
cut_last (c ∷ d ∷ s) suffix = elim (cut_last (d ∷ s) suffix) [
  | none ↦ none
  | some body ↦ some (c ∷ body)
]

-- `usesNativeParams(spec)`.
unfoldable pub uses_native : List (Text × Text) → Bool
unfolding has_prefix
uses_native [] = false
uses_native ((col, binding) ∷ bindings) = has_prefix binding (codes "{") || uses_native bindings

unfoldable pub uses_native_params : SortSpec → Bool
unfolding uses_native
uses_native_params spec = uses_native spec.cursor

-- `nativeParamType(binding)`; `none` for a false `ok`.
unfoldable pub native_param_type : Text → Option Text
unfolding cut_prefix cut_last cut trim_space
native_param_type binding = elim (cut_prefix binding (codes "{")) [
  | none ↦ none
  | some opened ↦ elim (cut_last opened b'}') [
    | none ↦ none
    | some body ↦ elim (cut body b':') [ none ↦ none | some (_, typ) ↦ some (trim_space typ) ]
  ]
]

-- The columns all have a binding: `need` for each of them.
unfoldable pub need_all : List (Text × Text) → List Text → Result SpecError (Unit {0})
unfolding binding_of
need_all bindings [] = ok tt
need_all bindings (col ∷ cols) = elim (binding_of col bindings) [
  | none ↦ err (no_binding col)
  | some _ ↦ need_all bindings cols
]

unfoldable pub need_keys : List (Text × Text) → List SortKey → Result SpecError (Unit {0})
unfolding need_all
need_keys bindings [] = ok tt
need_keys bindings (k ∷ keys) = need_all bindings k.columns >>= λ _. need_keys bindings keys

-- The last loop of `validateCursorBindings`. The code meets the bindings in an order of the map's own.
unfoldable pub native_bindings : List (Text × Text) → Result SpecError (Unit {0})
unfolding native_param_type has_prefix
native_bindings [] = ok tt
native_bindings ((col, binding) ∷ bindings) = elim (native_param_type binding) [
  | none ↦ err (not_a_parameter binding col)
  | some typ ↦ elim (has_prefix typ (codes "Nullable(")) [
    | true ↦ native_bindings bindings
    | false ↦ err (not_nullable binding col)
  ]
]

-- `validateCursorBindings(spec)`.
unfoldable pub validate_cursor_bindings : SortSpec → Result SpecError (Unit {0})
unfolding need_keys need_all uses_native_params native_bindings
validate_cursor_bindings spec = need_keys spec.cursor spec.keys >>= λ _.
    need_all spec.cursor spec.default_by >>= λ _.
    if uses_native_params spec then native_bindings spec.cursor else ok tt

-- The keys with their nullable columns; in keyset mode each is validated.
unfoldable pub finish_keys : Bool → List Text → List SortKey → Result SpecError (List SortKey)
unfolding nullable_columns validate_nullable
finish_keys keyset nullable [] = ok []
finish_keys keyset nullable (k ∷ keys) =
    let key : SortKey = record {
      name = k.name;
      columns = k.columns;
      nullable = k.nullable ++ nullable_columns nullable k.columns;
    } in
    (if keyset then validate_nullable key else ok tt) >>= λ _.
    finish_keys keyset nullable keys >>= λ rest. ok (key ∷ rest)

-- `parseSortSpec` behind its loop over the lines.
unfoldable pub finish_spec : SortSpec × List Text → Result SpecError SortSpec
unfolding finish_keys is_keyset validate_cursor_bindings
finish_spec (spec, nullable) = elim spec.keys [
  | [] ↦ err no_key
  | _ ∷ _ ↦ elim spec.default_by [
    | [] ↦ err no_default
    | _ ∷ _ ↦ finish_keys (is_keyset spec) nullable spec.keys >>= λ keys.
        let finished : SortSpec = record {
          name = spec.name;
          keys = keys;
          default_by = spec.default_by;
          cursor = spec.cursor;
          tiebreak = spec.tiebreak;
        } in
        (if is_keyset spec then validate_cursor_bindings finished else ok tt) >>= λ _. ok finished
  ]
]

-- `parseSortSpec(name, lines)`.
unfoldable pub parse_sort_spec : Text → List Text → Result SpecError SortSpec
unfolding read_lines finish_spec
parse_sort_spec name lines =
    read_lines lines
      (record { name = name; keys = []; default_by = []; cursor = []; tiebreak = [] }, [])
    >>= finish_spec

-- The map of specifications found so far, and a new one with its name.
unfoldable pub add_spec : SortSpec → List SortSpec → Result SpecError (List SortSpec)
unfolding eq
add_spec spec [] = ok (spec ∷ [])
add_spec spec (s ∷ specs) =
    let rest = add_spec spec specs in
    if eq s.name spec.name
    then err (duplicate_spec spec.name)
    else rest >>= λ specs'. ok (s ∷ specs')

-- `collectSortSpecs`, on the texts of the comment groups.
unfoldable pub collect_groups : List (List Text) → List SortSpec → Result SpecError (List SortSpec)
unfolding sort_block_name strip_comment parse_sort_spec add_spec
collect_groups [] specs = ok specs
collect_groups (group ∷ groups) specs =
    let lines = map strip_comment group in
    elim (sort_block_name lines) [
      | none ↦ collect_groups groups specs
      | some name ↦ parse_sort_spec name lines >>= λ spec.
          add_spec spec specs >>= λ specs'. collect_groups groups specs'
    ]

unfoldable pub collect_sort_specs : List (List Text) → Result SpecError (List SortSpec)
unfolding collect_groups
collect_sort_specs comments = collect_groups comments []
