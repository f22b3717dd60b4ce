-- ===== src/Codegen/Shared/Known.antt =====
-- What the map of a group knows of each name while the later queries are checked.
use pggen.Prelude.{
  ◌≡◌, refl, sym, ◌∙◌, ap, Bool, true, false, ◌&&◌, ◌||◌, List, [], ◌∷◌, map, Option, none, some,
  ◌==◌, arith, if◌then◌else◌, length, Bool-cases, inl, inr,
}
use pggen.Prelude.Result.{Result, ok, err, ◌>>=◌}
use pggen.Prelude.Text.{Text, eq, eq_iff, eq_sym}
use pggen.GoType.{
  GoType, array_type, map_type, composite_type, enum_type, import_type, opaque_type, pointer_type,
  void_type, base_name,
}
use pggen.Codegen.{TemplatedColumn}
use pggen.Codegen.Shared.{
  QueryRef, MergedCol, Cols, SharedError, is_pointer, unwrap_pointer, find_col, widen, same_base,
  check_found, check_columns, check_refs,
}

abbrev pub column_names : List TemplatedColumn → List Text
column_names cs = map (λ (c : TemplatedColumn). c.pg_name) cs

-- The column of a name.
unfoldable pub column_of : List TemplatedColumn → Text → Option TemplatedColumn
unfolding eq
column_of [] x = none
column_of (c ∷ cs) x = if eq c.pg_name x then some c else column_of cs x

-- A type without its pointer, and whether it has one.
abbrev pub bare : GoType → GoType
bare (pointer_type elem) = elem
bare t = t

abbrev pub points : GoType → Bool
points (pointer_type elem) = true
points t = false

-- Whether the types of two columns have the same name but for a pointer, a package apart.
unfoldable pub agrees : TemplatedColumn → TemplatedColumn → Bool
unfolding eq base_name
agrees c d = eq (base_name (bare c.go_type)) (base_name (bare d.go_type))

-- Whether a column of a later query has its like in the first.
unfoldable pub matches : List TemplatedColumn → TemplatedColumn → Bool
unfolding column_of agrees
matches firsts c = elim (column_of firsts c.pg_name) [ none ↦ false | some d ↦ agrees d c ]

unfoldable pub all_match : List TemplatedColumn → List TemplatedColumn → Bool
unfolding matches
all_match firsts [] = true
all_match firsts (c ∷ cs) = matches firsts c && all_match firsts cs

-- Whether the later queries have as many columns as the first, each with its like there.
unfoldable pub compatible : List TemplatedColumn → List QueryRef → Bool
unfolding all_match
compatible firsts [] = true
compatible firsts (ref ∷ refs) =
    (length ref.outputs == length firsts)
    && (all_match firsts ref.outputs && compatible firsts refs)

-- Whether one of the columns has the name, and is a pointer.
unfoldable pub pointed : List TemplatedColumn → Text → Bool
unfolding eq
pointed [] x = false
pointed (c ∷ cs) x = (eq c.pg_name x && points c.go_type) || pointed cs x

unfoldable pub pointed_in : List QueryRef → Text → Bool
unfolding pointed
pointed_in [] x = false
pointed_in (ref ∷ refs) x = pointed ref.outputs x || pointed_in refs x

-- What the map has of a name, where `wide` says which columns were widened.
abbrev pub merged_of : Option TemplatedColumn → Bool → Option MergedCol
merged_of none wide = none
merged_of (some c) wide = some (record { col = c; nullable = wide || is_pointer c.go_type })

abbrev pub Knows : List TemplatedColumn → (Text → Bool) → Cols → Type 0
Knows firsts wide cols = (x : Text) → find_col cols x ≡ merged_of (column_of firsts x) (wide x)

-- A run that comes to a map exactly if a test is passed.
pub data Runs (firsts : List TemplatedColumn) (wide : Text → Bool)
    : Bool → Result SharedError Cols → Type 0 where
  runs : {cols : Cols} → Knows firsts wide cols → Runs firsts wide true (ok cols)
  stops : {e : SharedError} → Runs firsts wide false (err e)

Runs-bind :
    {firsts : List TemplatedColumn} {wide wide' : Text → Bool} {b b' : Bool}
    {r : Result SharedError Cols} (k : Cols → Result SharedError Cols)
    → Runs firsts wide b r
    → ((cols : Cols) → Knows firsts wide cols → Runs firsts wide' b' (k cols))
    → Runs firsts wide' (b && b') (r >>= k)
Runs-bind k (runs {cols} h) hk = hk cols h
Runs-bind k stops hk = stops

abbrev widened_entry : Bool → Option MergedCol → Option MergedCol
widened_entry wide none = none
widened_entry wide (some mc) = some (record { col = mc.col; nullable = wide || mc.nullable })

widened_entry-false : (o : Option MergedCol) → widened_entry false o ≡ o
widened_entry-false none = refl
widened_entry-false (some mc) = refl

widened_entry-merged_of :
    (w : Bool) (o : Option TemplatedColumn) (wide : Bool)
    → widened_entry w (merged_of o wide) ≡ merged_of o (w || wide)
widened_entry-merged_of true none wide = refl
widened_entry-merged_of true (some c) wide = refl
widened_entry-merged_of false none wide = refl
widened_entry-merged_of false (some c) wide = refl

find_col-widen :
    (x : Text) (cols : Cols) (y : Text)
    → find_col (widen x cols) y ≡ widened_entry (eq x y) (find_col cols y)
unfolding widen find_col
find_col-widen x [] y = refl
find_col-widen x ((n, mc) ∷ cols) y = elim (Bool-cases (eq n x)) [
  | inl e ↦
      let same : eq n y ≡ eq x y = ap (λ z. eq z y) ((eq_iff n x).0 e) in
      elim (Bool-cases (eq x y)) [
        | inl q ↦ rw (e, same, q) refl
        | inr q ↦ rw (e, same, q) (sym (widened_entry-false (find_col cols y)))
      ]
  | inr e ↦ elim (Bool-cases (eq n y)) [
    | inl q ↦
        let other : eq x y ≡ false = ap (eq x) (sym ((eq_iff n y).0 q)) ∙ eq_sym x n ∙ e in
        rw (e, q, other) refl
    | inr q ↦ rw (e, q) (find_col-widen x cols y)
  ]
]

-- What a column of a later query does to the map.
abbrev wider : TemplatedColumn → (Text → Bool) → Text → Bool
wider c wide x = (eq c.pg_name x && is_pointer c.go_type) || wide x

find_col-merged_of :
    (cols : Cols) (n x : Text) (o : Option TemplatedColumn) (p wide : Bool)
    → find_col cols x ≡ merged_of o wide
    → find_col (if p then widen n cols else cols) x ≡ merged_of o ((eq n x && p) || wide)
find_col-merged_of cols n x o true wide h =
    find_col-widen n cols x
    ∙ ap (widened_entry (eq n x)) h
    ∙ widened_entry-merged_of (eq n x) o wide
    ∙ ap (λ b. merged_of o (b || wide)) (ground (arith, eq n x))
find_col-merged_of cols n x o false wide h = h ∙ ap (merged_of o) (ground (arith, eq n x))

unwrap_pointer-bare : (t : GoType) → unwrap_pointer t ≡ bare t
unwrap_pointer-bare (array_type sql elem) = refl
unwrap_pointer-bare (map_type sql key val) = refl
unwrap_pointer-bare (composite_type sql columns name fields types) = refl
unwrap_pointer-bare (enum_type sql name labels values) = refl
unwrap_pointer-bare (import_type pkg t) = refl
unwrap_pointer-bare (opaque_type name) = refl
unwrap_pointer-bare (pointer_type elem) = refl
unwrap_pointer-bare void_type = refl

pub is_pointer-points : (t : GoType) → is_pointer t ≡ points t
is_pointer-points (array_type sql elem) = refl
is_pointer-points (map_type sql key val) = refl
is_pointer-points (composite_type sql columns name fields types) = refl
is_pointer-points (enum_type sql name labels values) = refl
is_pointer-points (import_type pkg t) = refl
is_pointer-points (opaque_type name) = refl
is_pointer-points (pointer_type elem) = refl
is_pointer-points void_type = refl

same_base-agrees : (c d : TemplatedColumn) → same_base c d ≡ agrees c d
unfolding same_base agrees
same_base-agrees c d = rw (unwrap_pointer-bare c.go_type, unwrap_pointer-bare d.go_type) refl

check_found-Runs :
    (firsts : List TemplatedColumn) (wide : Text → Bool) (output_type query : Text)
    (c : TemplatedColumn) (cols : Cols)
    → Knows firsts wide cols
    → Runs firsts
        (wider c wide)
        (matches firsts c)
        (check_found output_type query c cols (find_col cols c.pg_name))
unfolding matches
check_found-Runs firsts wide output_type query c cols h =
    rw (h c.pg_name) (go (column_of firsts c.pg_name) (wide c.pg_name))
  where
    go :
        (o : Option TemplatedColumn) (w : Bool)
        → Runs firsts
            (wider c wide)
            (elim o [ none ↦ false | some d ↦ agrees d c ])
            (check_found output_type query c cols (merged_of o w))
    go none w = stops
    go (some d) w = elim (Bool-cases (same_base d c)) [
      | inl e ↦
          rw (sym (same_base-agrees d c), e)
            (runs (λ x.
              find_col-merged_of cols c.pg_name x (column_of firsts x) (is_pointer c.go_type)
                (wide x) (h x)))
      | inr e ↦ rw (sym (same_base-agrees d c), e) stops
    ]

-- What the columns of a query do to the map, and those of several.
abbrev wider_all : List TemplatedColumn → (Text → Bool) → Text → Bool
wider_all [] wide = wide
wider_all (c ∷ cs) wide = wider_all cs (wider c wide)

abbrev wider_refs : List QueryRef → (Text → Bool) → Text → Bool
wider_refs [] wide = wide
wider_refs (ref ∷ refs) wide = wider_refs refs (wider_all ref.outputs wide)

and_true : (b : Bool) → (b && true) ≡ b
and_true b = ground arith

check_columns-Runs :
    (firsts : List TemplatedColumn) (wide : Text → Bool) (output_type query : Text)
    (cs : List TemplatedColumn) (cols : Cols)
    → Knows firsts wide cols
    → Runs firsts
        (wider_all cs wide)
        (all_match firsts cs)
        (check_columns output_type query cs cols)
unfolding check_columns all_match
check_columns-Runs firsts wide output_type query [] cols h = runs h
check_columns-Runs firsts wide output_type query (c ∷ cs) cols h =
    Runs-bind (check_columns output_type query cs)
      (check_found-Runs firsts wide output_type query c cols h)
      (λ cols' h'. check_columns-Runs firsts (wider c wide) output_type query cs cols' h')

pub check_refs-Runs :
    (wide : Text → Bool) (output_type : Text) (first : QueryRef) (refs : List QueryRef)
    (cols : Cols)
    → Knows first.outputs wide cols
    → Runs first.outputs
        (wider_refs refs wide)
        (compatible first.outputs refs)
        (check_refs output_type first refs cols)
unfolding check_refs compatible
check_refs-Runs wide output_type first [] cols h = runs h
check_refs-Runs wide output_type first (ref ∷ refs) cols h =
    elim (Bool-cases (length ref.outputs == length first.outputs)) [
      | inl e ↦ rw e (
          Runs-bind (check_refs output_type first refs)
            (check_columns-Runs first.outputs wide output_type ref.query_name ref.outputs cols h)
            (λ cols' h'.
              check_refs-Runs (wider_all ref.outputs wide) output_type first refs cols' h'))
      | inr e ↦ rw e stops
    ]

wider_all-pointed :
    (cs : List TemplatedColumn) (wide : Text → Bool) (x : Text)
    → wider_all cs wide x ≡ (wide x || pointed cs x)
unfolding pointed
wider_all-pointed [] wide x = ground (arith, wide x)
wider_all-pointed (c ∷ cs) wide x =
    let rest = wider_all-pointed cs (wider c wide) x in
    ground (arith, rest, is_pointer-points c.go_type)

pub wider_refs-pointed :
    (refs : List QueryRef) (wide : Text → Bool) (x : Text)
    → wider_refs refs wide x ≡ (wide x || pointed_in refs x)
unfolding pointed_in
wider_refs-pointed [] wide x = ground (arith, wide x)
wider_refs-pointed (ref ∷ refs) wide x =
    let rest = wider_refs-pointed refs (wider_all ref.outputs wide) x in
    let e = wider_all-pointed ref.outputs wide x in ground (arith, rest, e)
