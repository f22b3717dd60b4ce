-- ===== src/Codegen/Shared/Merge.antt =====
-- The merged columns of a shared row struct, against a description without the map.
use pggen.Codegen.Shared.Known.{
  points, is_pointer-points, Knows, Runs, check_refs-Runs, column_names, column_of, compatible,
  merged_of, pointed_in, runs, stops, wider_refs-pointed,
}
use mathlib.Core.Path.{subst}
use pggen.Prelude.{
  ◌≡◌, refl, sym, ◌∙◌, ap, ◌≢◌, Bool, true, false, not, ◌&&◌, ◌||◌, List, [], ◌∷◌, map, Option,
  none, some, arith, if◌then◌else◌, Bool-cases, All, All-both, All-weaken, inl, inr,
}
use pggen.Prelude.Result.{Result, ok, err, ◌>>=◌}
use pggen.Prelude.Text.{Text, eq, eq_iff, eq_refl, IsDistinct}
use pggen.GoType.{pointer_type}
use pggen.Codegen.{TemplatedColumn}
use pggen.Codegen.Shared.{
  QueryRef, MergedCol, Cols, SharedError, is_pointer, find_col, first_cols, check_refs, pointered,
  widened_column, merged_columns, merge_columns, merge_group,
}

abbrev or_else : Option MergedCol → Option MergedCol → Option MergedCol
or_else none b = b
or_else (some mc) b = some mc

column_of-none :
    (cs : List TemplatedColumn) (x : Text)
    → All (λ y. x ≢ y) (column_names cs)
    → column_of cs x ≡ none
unfolding column_of
column_of-none [] x h = refl
column_of-none (c ∷ cs) x h =
    let other = eq_iff c.pg_name x in
    let apart : eq c.pg_name x ≡ false =
      ground (arith, other, (λ (e : c.pg_name ≡ x). h.0 (sym e))) in
    rw apart (column_of-none cs x h.1)

-- The map of the first query, whose columns have different names.
find_col-first_cols :
    (cs : List TemplatedColumn) (cols : Cols) (x : Text)
    → IsDistinct (column_names cs)
    → find_col (first_cols cs cols) x ≡ or_else (merged_of (column_of cs x) false) (find_col cols x)
unfolding first_cols find_col column_of
find_col-first_cols [] cols x h = refl
find_col-first_cols (c ∷ cs) cols x h =
    let first : MergedCol = record { col = c; nullable = is_pointer c.go_type } in
    find_col-first_cols cs ((c.pg_name, first) ∷ cols) x h.1 ∙ elim (Bool-cases (eq c.pg_name x)) [
      | inl e ↦
          let gone : column_of cs x ≡ none =
            subst (λ y. column_of cs y ≡ none) ((eq_iff c.pg_name x).0 e)
              (column_of-none cs c.pg_name h.0) in
          rw (e, gone) refl
      | inr e ↦ rw e refl
    ]

first_cols-Knows :
    (cs : List TemplatedColumn)
    → IsDistinct (column_names cs)
    → Knows cs (λ x. false) (first_cols cs [])
first_cols-Knows cs h x = find_col-first_cols cs [] x h ∙ go (column_of cs x)
  where
    go :
        (o : Option TemplatedColumn)
        → or_else (merged_of o false) (find_col [] x) ≡ merged_of o false
    go none = unfold find_col in refl
    go (some c) = refl

names-All :
    (P : Text → Type 0) (cs : List TemplatedColumn)
    → All P (column_names cs)
    → All (λ (c : TemplatedColumn). P c.pg_name) cs
names-All P [] h = tt
names-All P (c ∷ cs) h = (h.0, names-All P cs h.1)

column_of_self :
    (cs : List TemplatedColumn)
    → IsDistinct (column_names cs)
    → All (λ (c : TemplatedColumn). column_of cs c.pg_name ≡ some c) cs
unfolding column_of
column_of_self [] h = tt
column_of_self (c ∷ cs) h = (
  rw (eq_refl c.pg_name) refl,
  All-weaken (λ (d : TemplatedColumn). (c.pg_name ≢ d.pg_name) × (column_of cs d.pg_name ≡ some d))
      (λ (d : TemplatedColumn). column_of (c ∷ cs) d.pg_name ≡ some d)
      (λ d g.
        let apart : eq c.pg_name d.pg_name ≡ false =
          ground (arith, eq_iff c.pg_name d.pg_name, g.0) in
        rw apart g.1)
      cs
      (All-both (λ (d : TemplatedColumn). c.pg_name ≢ d.pg_name)
        (λ (d : TemplatedColumn). column_of cs d.pg_name ≡ some d) cs
        (names-All (λ y. c.pg_name ≢ y) cs h.0) (column_of_self cs h.1)),
)

-- A column with a pointer, as its type and in its spelling.
abbrev pub starred : TemplatedColumn → TemplatedColumn
starred c = record {
  pg_name = c.pg_name;
  upper_name = c.upper_name;
  lower_name = c.lower_name;
  go_type = pointer_type c.go_type;
  qual_type = b'*' ∷ c.qual_type;
}

-- A column with the pointer that a later query asks for, if it has none.
abbrev pub reference : List QueryRef → TemplatedColumn → TemplatedColumn
reference refs c = if pointed_in refs c.pg_name && not (points c.go_type) then starred c else c

widened_column-reference :
    (refs : List QueryRef) (cs : List TemplatedColumn)
    → map (λ c. widened_column (pointed_in refs c.pg_name) c) cs ≡ map (reference refs) cs
widened_column-reference refs [] = refl
widened_column-reference refs (c ∷ cs) =
    rw (is_pointer-points c.go_type, widened_column-reference refs cs) refl

widened_column-pointer :
    (wide : Bool) (c : TemplatedColumn)
    → widened_column (wide || is_pointer c.go_type) c ≡ widened_column wide c
widened_column-pointer wide c =
    ap (λ b. if b then pointered c else c) (absorbed wide (is_pointer c.go_type))
  where
    absorbed : (w p : Bool) → ((w || p) && not p) ≡ (w && not p)
    absorbed w p = ground arith

merged_columns-map :
    (wide : Text → Bool) (cs : List TemplatedColumn) (cols : Cols)
    → All
        (λ (c : TemplatedColumn).
          find_col cols c.pg_name
          ≡ some (record { col = c; nullable = wide c.pg_name || is_pointer c.go_type }))
        cs
    → merged_columns (column_names cs) cols ≡ ok (map (λ c. widened_column (wide c.pg_name) c) cs)
unfolding merged_columns
merged_columns-map wide [] cols h = refl
merged_columns-map wide (c ∷ cs) cols h =
    let rest = merged_columns-map wide cs cols h.1 in
    rw (merged_columns, h.0, rest, widened_column-pointer (wide c.pg_name) c) refl

-- What a run that was checked comes to.
Runs-merged :
    (cs : List TemplatedColumn) (wide : Text → Bool) {b : Bool} {r : Result SharedError Cols}
    → IsDistinct (column_names cs)
    → Runs cs wide b r
    → (b ≡ true
        → (r >>= merged_columns (column_names cs))
          ≡ ok (map (λ c. widened_column (wide c.pg_name) c) cs))
      × (b ≡ false → (e : SharedError) × ((r >>= merged_columns (column_names cs)) ≡ err e))
Runs-merged cs wide h (runs {cols} knows) = (
  λ e. merged_columns-map wide cs cols (
      All-weaken (λ (c : TemplatedColumn). column_of cs c.pg_name ≡ some c)
        (λ (c : TemplatedColumn).
          find_col cols c.pg_name
          ≡ some (record { col = c; nullable = wide c.pg_name || is_pointer c.go_type }))
        (λ c e. knows c.pg_name ∙ ap (λ o. merged_of o (wide c.pg_name)) e) cs
        (column_of_self cs h)),
  λ e. absurd (cc e),
)
Runs-merged cs wide h (stops {e}) = (λ q. absurd (cc q), λ q. (e, refl))

Runs-cong :
    {cs : List TemplatedColumn} {wide wide' : Text → Bool} {b : Bool} {r : Result SharedError Cols}
    → ((x : Text) → wide x ≡ wide' x)
    → Runs cs wide b r
    → Runs cs wide' b r
Runs-cong {cs} same (runs knows) = runs (λ x. knows x ∙ ap (merged_of (column_of cs x)) (same x))
Runs-cong same stops = stops

merge_columns-nonempty :
    (output_type : Text) (first : QueryRef) (refs : List QueryRef) (cs : List TemplatedColumn)
    → cs ≢ []
    → merge_columns output_type first refs cs
      ≡ (check_refs output_type first refs (first_cols cs []) >>= merged_columns (column_names cs))
unfolding merge_columns
merge_columns-nonempty output_type first refs [] ne = absurd (ne refl)
merge_columns-nonempty output_type first refs (c ∷ cs) ne = refl

-- The value of a run, if it returns one.
abbrev pub value_of {ℓ κ} : {E : Type κ} {A : Type ℓ} → Result E A → Option A
value_of (ok a) = some a
value_of (err e) = none

value_of-cases {ℓ κ} :
    {E : Type κ} {A : Type ℓ} (b : Bool) (r : Result E A) (a : A)
    → (b ≡ true → r ≡ ok a) × (b ≡ false → (e : E) × (r ≡ err e))
    → value_of r ≡ (if b then some a else none)
value_of-cases true r a h = ap value_of (h.0 refl)
value_of-cases false r a h = ap value_of (h.1 refl).1

-- If the columns of the first query of a group are not none, and have different names: where
-- every later query has as many columns as the first, and each of its columns has one of the
-- first query with its name and with a type of the same base name but for a pointer, the
-- struct has the columns of the first query in their order, each as it is there, or with a
-- star in front of its type if it has no pointer there and has one in a later query; and
-- otherwise there is an error and no struct.
pub merge_group-reference :
    (output_type : Text) (first : QueryRef) (refs : List QueryRef)
    → first.outputs ≢ []
    → IsDistinct (column_names first.outputs)
    → value_of (merge_group output_type first refs)
      ≡ (if compatible first.outputs refs then some (map (reference refs) first.outputs) else none)
unfolding merge_group
merge_group-reference output_type first refs some_columns distinct =
    value_of-cases (compatible first.outputs refs)
      (merge_columns output_type first refs first.outputs) (map (reference refs) first.outputs)
      (rw
        (
          sym (widened_column-reference refs first.outputs),
          merge_columns-nonempty output_type first refs first.outputs some_columns,
        )
        (Runs-merged first.outputs (pointed_in refs) distinct (
          Runs-cong (wider_refs-pointed refs (λ x. false)) (
            check_refs-Runs (λ x. false) output_type first refs (first_cols first.outputs [])
              (first_cols-Knows first.outputs distinct)))))
