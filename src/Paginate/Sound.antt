-- ===== src/Paginate/Sound.antt =====
-- What `parseSortSpec` promises of the specification that it returns.
use pggen.Prelude.{
  ◌≡◌, refl, ◌≢◌, inl, inr, Bool, true, false, List, [], ◌∷◌, ◌++◌, none, if◌then◌else◌, Bool-cases,
  Option-cases, All,
}
use pggen.Prelude.Result.{ok, Returns, Returns-map, Returns-all, Returns-bind, Returns-ok}
use pggen.Prelude.Text.{Text}
use pggen.Paginate.Spec.{
  SortKey, SortSpec, is_keyset, is_nullable_column, binding_of, nullable_columns, read_lines,
  validate_rest, validate_columns, validate_nullable,
}
use pggen.Paginate.Check.{
  need_all, need_keys, uses_native_params, native_bindings, validate_cursor_bindings, finish_keys,
  finish_spec, parse_sort_spec,
}

-- The columns behind the leading one are not nullable.
abbrev pub LeadingOnly : SortKey → List Text → Type 0
LeadingOnly key [] = Unit
LeadingOnly key (lead ∷ cols) = All (λ col. is_nullable_column key col ≡ false) cols

-- Every column has a binding.
abbrev pub Bound : List (Text × Text) → List Text → Type 0
Bound bindings cols = All (λ col. binding_of col bindings ≢ none) cols

validate_rest-Returns :
    (key : SortKey) (cols : List Text)
    → Returns (λ _. All (λ col. is_nullable_column key col ≡ false) cols) (validate_rest key cols)
unfolding validate_rest
validate_rest-Returns key [] = tt
validate_rest-Returns key (col ∷ cols) = elim (Bool-cases (is_nullable_column key col)) [
  | inl e ↦ rw e tt
  | inr e ↦
      rw e (
        Returns-map _ _ (validate_rest key cols) (λ u h. (refl, h))
          (validate_rest-Returns key cols))
]

validate_nullable-Returns :
    (key : SortKey) → Returns (λ _. LeadingOnly key key.columns) (validate_nullable key)
unfolding validate_nullable validate_columns
validate_nullable-Returns key = go key.columns
  where
    go : (cols : List Text) → Returns (λ _. LeadingOnly key cols) (validate_columns key cols)
    go [] = tt
    go (lead ∷ cols) = validate_rest-Returns key cols

need_all-Returns :
    (bindings : List (Text × Text)) (cols : List Text)
    → Returns (λ _. Bound bindings cols) (need_all bindings cols)
unfolding need_all
need_all-Returns bindings [] = tt
need_all-Returns bindings (col ∷ cols) = elim (Option-cases (binding_of col bindings)) [
  | inl e ↦ rw (e, need_all) tt
  | inr (arg, e) ↦
      rw (e, need_all)
        (Returns-map _ _ (need_all bindings cols) (λ u h. (cc, h)) (need_all-Returns bindings cols))
]

need_keys-Returns :
    (bindings : List (Text × Text)) (keys : List SortKey)
    → Returns (λ _. All (λ k. Bound bindings k.columns) keys) (need_keys bindings keys)
unfolding need_keys
need_keys-Returns bindings [] = tt
need_keys-Returns bindings (k ∷ keys) =
    Returns-bind _ _ (need_all bindings k.columns) _ (need_all-Returns bindings k.columns) λ u h.
      Returns-map _ _ (need_keys bindings keys) (λ u' hs. (h, hs)) (need_keys-Returns bindings keys)

validate_cursor_bindings-Returns :
    (spec : SortSpec)
    → Returns
        (λ _. All (λ k. Bound spec.cursor k.columns) spec.keys × Bound spec.cursor spec.default_by)
        (validate_cursor_bindings spec)
unfolding validate_cursor_bindings
validate_cursor_bindings-Returns spec =
    Returns-bind _ _ (need_keys spec.cursor spec.keys) _ (need_keys-Returns spec.cursor spec.keys)
      λ u h.
        Returns-bind _ _ (need_all spec.cursor spec.default_by) _
          (need_all-Returns spec.cursor spec.default_by)
          λ u' h'. last (uses_native_params spec) (h, h')
  where
    Promise : Type 0
    Promise = All (λ k. Bound spec.cursor k.columns) spec.keys × Bound spec.cursor spec.default_by

    last :
        (b : Bool)
        → Promise
        → Returns (λ _. Promise) (if b then native_bindings spec.cursor else ok tt)
    last true h =
        Returns-map _ _ (native_bindings spec.cursor) (λ u _. h)
          (Returns-all (native_bindings spec.cursor))
    last false h = h

finish_keys-Returns :
    (keyset : Bool) (nullable : List Text) (keys : List SortKey)
    → Returns
        (λ ks. All (λ k. keyset ≡ true → LeadingOnly k k.columns) ks × (keys ≢ [] → ks ≢ []))
        (finish_keys keyset nullable keys)
unfolding finish_keys
finish_keys-Returns keyset nullable [] = (tt, λ ne. ne)
finish_keys-Returns keyset nullable (k ∷ keys) =
    Returns-bind (λ _. keyset ≡ true → LeadingOnly key key.columns) _
      (if keyset then validate_nullable key else ok tt) _ (validated keyset)
      λ u h.
        Returns-bind _ _ (finish_keys keyset nullable keys) _
          (finish_keys-Returns keyset nullable keys) λ ks hs. ((h, hs.0), λ _. cc)
  where
    key : SortKey
    key = record {
      name = k.name;
      columns = k.columns;
      nullable = k.nullable ++ nullable_columns nullable k.columns;
    }

    validated :
        (b : Bool)
        → Returns
            (λ _. b ≡ true → LeadingOnly key key.columns)
            (if b then validate_nullable key else ok tt)
    validated true =
        Returns-map _ _ (validate_nullable key) (λ u h _. h) (validate_nullable-Returns key)
    validated false = λ e. cc

-- A specification that the pagination can use: it has keys and a default order, and in keyset mode
-- only the leading column of a key may be NULL and every column has a binding for its cursor.
pub record IsSpec (spec : SortSpec) : Type 0 where
  pub has_key : spec.keys ≢ []
  pub has_default : spec.default_by ≢ []
  pub leading_only : is_keyset spec ≡ true → All (λ k. LeadingOnly k k.columns) spec.keys
  pub keys_bound : is_keyset spec ≡ true → All (λ k. Bound spec.cursor k.columns) spec.keys
  pub default_bound : is_keyset spec ≡ true → Bound spec.cursor spec.default_by

All-keyset :
    {b : Bool} (ks : List SortKey)
    → All (λ k. b ≡ true → LeadingOnly k k.columns) ks
    → b ≡ true
    → All (λ k. LeadingOnly k k.columns) ks
All-keyset [] h e = tt
All-keyset (k ∷ ks) h e = (h.0 e, All-keyset ks h.1 e)

checked-Returns :
    (spec : SortSpec)
    → Returns
        (λ _.
          is_keyset spec ≡ true
          → All (λ k. Bound spec.cursor k.columns) spec.keys × Bound spec.cursor spec.default_by)
        (if is_keyset spec then validate_cursor_bindings spec else ok tt)
checked-Returns spec = by_mode (is_keyset spec)
  where
    by_mode :
        (b : Bool)
        → Returns
            (λ _.
              b ≡ true
              → All (λ k. Bound spec.cursor k.columns) spec.keys
                × Bound spec.cursor spec.default_by)
            (if b then validate_cursor_bindings spec else ok tt)
    by_mode true =
        Returns-map _ _ (validate_cursor_bindings spec) (λ u h _. h)
          (validate_cursor_bindings-Returns spec)
    by_mode false = λ e. cc

finish_spec-Returns :
    (name : Text) (keys : List SortKey) (default_by : List Text) (cursor : List (Text × Text))
    (tiebreak : Text) (nullable : List Text)
    → Returns IsSpec (
        finish_spec (
          record {
            name = name;
            keys = keys;
            default_by = default_by;
            cursor = cursor;
            tiebreak = tiebreak;
          },
          nullable,
        ))
unfolding finish_spec is_keyset
finish_spec-Returns name [] default_by cursor tiebreak nullable = tt
finish_spec-Returns name (k ∷ keys) [] cursor tiebreak nullable = tt
finish_spec-Returns name (k ∷ keys) (d ∷ default_by) cursor tiebreak nullable =
    Returns-bind _ _ (finish_keys keyset nullable (k ∷ keys)) _
      (finish_keys-Returns keyset nullable (k ∷ keys))
      λ ks hs.
        Returns-bind _ _ (if keyset then validate_cursor_bindings (finished ks) else ok tt) _
          (checked-Returns (finished ks))
          λ u h. record {
            has_key = hs.1 (cc);
            has_default = cc;
            leading_only = All-keyset ks hs.0;
            keys_bound = λ e. (h e).0;
            default_bound = λ e. (h e).1;
          }
  where
    finished : List SortKey → SortSpec
    finished ks = record {
      name = name;
      keys = ks;
      default_by = d ∷ default_by;
      cursor = cursor;
      tiebreak = tiebreak;
    }

    keyset : Bool
    keyset = is_keyset (finished [])

-- A block that is read gives a specification that the pagination can use: it has a key and a
-- default order, and if it has a cursor then only the leading column of a key is nullable, and
-- every column of a key and of the default order has a binding.
pub parse_sort_spec-IsSpec :
    (name : Text) (lines : List Text) {spec : SortSpec}
    → parse_sort_spec name lines ≡ ok spec
    → IsSpec spec
unfolding parse_sort_spec
parse_sort_spec-IsSpec name lines e =
    Returns-ok IsSpec
      (Returns-bind _ IsSpec
        (read_lines lines
          (record { name = name; keys = []; default_by = []; cursor = []; tiebreak = [] }, []))
        _
        (Returns-all (
          read_lines lines
            (record { name = name; keys = []; default_by = []; cursor = []; tiebreak = [] }, [])))
        λ (spec, nullable) _.
          finish_spec-Returns spec.name spec.keys spec.default_by spec.cursor spec.tiebreak
            nullable)
      e
