-- ===== src/Paginate/After.antt =====
-- The rows that the keyset predicate keeps are the rows after the cursor.
use pggen.Prelude.{
  ℕ, ◌≡◌, refl, ap, sym, ◌∙◌, ◌≢◌, ◌⊎◌, inl, inr, Bool, true, false, ◌&&◌, ◌||◌, List, [], ◌∷◌, map,
  Option, none, some, arith, ltb, if◌then◌else◌, All,
}
use pggen.Prelude.Text.{Text}
use pggen.Paginate.Meaning.{
  Truth, yes, no, unknown, of_bool, both3, either3, compare_rows, null_value, same_value,
  equal_value, compare, eval, keeps, with_args, same_cond, null_cond, lead_cond, arms_cond,
  main_cond, escape_cond, keyset_cond,
}

-- The order of the values of a column: NULL is above every number.
abbrev pub below : Option ℕ → Option ℕ → Bool
below none w = false
below (some v) none = true
below (some v) (some w) = ltb v w

-- The row stands behind the cursor in the direction's order of one column: above it going up, and
-- below it going down.
abbrev pub behind : Bool → Option ℕ → Option ℕ → Bool
behind true row cursor = below row cursor
behind false row cursor = below cursor row

-- The same of several columns: the first that differs decides.
abbrev pub after : Bool → List (Option ℕ × Option ℕ) → Bool
after desc [] = false
after desc ((row, cursor) ∷ pairs) =
    behind desc row cursor || (same_value row cursor && after desc pairs)

-- The values of the columns at the row and at the cursor.
abbrev pub values_of : (Text → Option ℕ) → (Text → Text) → List Text → List (Option ℕ × Option ℕ)
values_of val arg cols = map (λ c. (val c, val (arg c))) cols

abbrev pub NotNull : (Text → Option ℕ) → (Text → Text) → Text → Type 0
NotNull val arg c = (null_value (val c) ≡ false) × (null_value (val (arg c)) ≡ false)

compare_pair :
    (desc : Bool) (v w : Option ℕ) (pairs : List (Option ℕ × Option ℕ))
    → null_value v ≡ false
    → null_value w ≡ false
    → compare_rows desc pairs ≡ of_bool (after desc pairs)
    → compare_rows desc ((v, w) ∷ pairs) ≡ of_bool (after desc ((v, w) ∷ pairs))
compare_pair desc none w pairs h h' e = cc
compare_pair desc (some v) none pairs h h' e = cc
compare_pair true (some v) (some w) pairs h h' e = rw e (ground arith)
compare_pair false (some v) (some w) pairs h h' e = rw e (ground arith)

module _ (val : Text → Option ℕ) (arg : Text → Text) (desc : Bool) where
  rows_map :
      (cols : List Text)
      → map (λ p. (val p.0, val p.1)) (with_args arg cols) ≡ values_of val arg cols
  rows_map [] = refl
  rows_map (c ∷ cols) = ap (◌∷◌ (val c, val (arg c))) (rows_map cols)

  compare_values :
      (cols : List Text)
      → All (NotNull val arg) cols
      → compare_rows desc (values_of val arg cols) ≡ of_bool (after desc (values_of val arg cols))
  compare_values [] h = refl
  compare_values (c ∷ cols) h =
      compare_pair desc (val c) (val (arg c)) (values_of val arg cols) h.0.0 h.0.1
        (compare_values cols h.1)

  compare-after :
      (cols : List Text)
      → All (NotNull val arg) cols
      → eval val (compare desc (with_args arg cols)) ≡ of_bool (after desc (values_of val arg cols))
  compare-after cols h = ap (compare_rows desc) (rows_map cols) ∙ compare_values cols h

  same_cond-eval :
      (native : Bool) (c : Text)
      → keeps (eval val (same_cond arg native c)) ≡ same_value (val c) (val (arg c))
  same_cond-eval false c = by_value (same_value (val c) (val (arg c)))
    where
      by_value : (b : Bool) → keeps (of_bool b) ≡ b
      by_value true = refl
      by_value false = refl
  same_cond-eval true c = by_value (val c) (val (arg c))
    where
      by_value :
          (v w : Option ℕ)
          → keeps
              (either3 (both3 (of_bool (null_value v)) (of_bool (null_value w))) (equal_value v w))
            ≡ same_value v w
      by_value none none = refl
      by_value none (some w) = refl
      by_value (some v) none = refl
      by_value (some v) (some w) = ground arith

  escape_not_first :
      (c : Text) (rest : List Text)
      → All (NotNull val arg) rest
      → (rest ≢ []) ⊎ (null_value (val (arg c)) ≡ false)
      → eval val (escape_cond arg c rest) ≡ no
  escape_not_first c [] h (inl ne) = absurd (ne refl)
  escape_not_first c [] h (inr e) = rw e refl
  escape_not_first c (d ∷ rest) h first =
      rw (escape_not_first d rest h.1 (inr h.0.1)) (both_no (of_bool (null_value (val (arg c)))))
    where
      both_no : (t : Truth) → both3 t no ≡ no
      both_no yes = refl
      both_no no = refl
      both_no unknown = refl

-- The arms of a nullable leading column: what they say of its values, whatever the rest says.
abbrev null_truth : Bool → Option ℕ → Option ℕ → Truth
null_truth false row cursor =
    both3 (of_bool (null_value row)) (if null_value cursor then no else yes)
null_truth true row cursor =
    both3 (if null_value row then no else yes) (of_bool (null_value cursor))

abbrev lead_truth : Bool → Option ℕ → Option ℕ → Truth
lead_truth desc row cursor =
    either3 (compare_rows desc ((row, cursor) ∷ [])) (null_truth desc row cursor)

keeps-either3 : (a b : Truth) → keeps (either3 a b) ≡ (keeps a || keeps b)
keeps-either3 yes b = refl
keeps-either3 no b = refl
keeps-either3 unknown yes = refl
keeps-either3 unknown no = refl
keeps-either3 unknown unknown = refl

keeps-both3 : (a b : Truth) → keeps (both3 a b) ≡ (keeps a && keeps b)
keeps-both3 yes b = refl
keeps-both3 no b = refl
keeps-both3 unknown yes = refl
keeps-both3 unknown no = refl
keeps-both3 unknown unknown = refl

keeps-of_bool : (b : Bool) → keeps (of_bool b) ≡ b
keeps-of_bool true = refl
keeps-of_bool false = refl

keeps-lead_truth :
    (desc : Bool) (row cursor : Option ℕ)
    → keeps (lead_truth desc row cursor) ≡ behind desc row cursor
keeps-lead_truth true none none = refl
keeps-lead_truth true none (some w) = refl
keeps-lead_truth true (some v) none = refl
keeps-lead_truth true (some v) (some w) = ground arith
keeps-lead_truth false none none = refl
keeps-lead_truth false none (some w) = refl
keeps-lead_truth false (some v) none = refl
keeps-lead_truth false (some v) (some w) = ground arith

or_comm : (a b : Bool) → (a || b) ≡ (b || a)
or_comm true true = refl
or_comm true false = refl
or_comm false true = refl
or_comm false false = refl

or_false : (b : Bool) → (b || false) ≡ b
or_false true = refl
or_false false = refl

and_false : (b : Bool) → (b && false) ≡ false
and_false true = refl
and_false false = refl

module _ (val : Text → Option ℕ) (arg : Text → Text) (native desc : Bool) where
  null_cond-eval :
      (c : Text) → eval val (null_cond arg desc c) ≡ null_truth desc (val c) (val (arg c))
  null_cond-eval c = by_direction desc
    where
      by_direction : (b : Bool) → eval val (null_cond arg b c) ≡ null_truth b (val c) (val (arg c))
      by_direction true = refl
      by_direction false = refl

  keeps-lead_cond :
      (c : Text) → keeps (eval val (lead_cond arg desc c)) ≡ behind desc (val c) (val (arg c))
  keeps-lead_cond c = rw (null_cond-eval c) (keeps-lead_truth desc (val c) (val (arg c)))

  keeps-arms_cond :
      (c : Text) (rest : List Text)
      → All (NotNull val arg) rest
      → keeps (eval val (arms_cond arg native desc c rest))
        ≡ after desc (values_of val arg (c ∷ rest))
  keeps-arms_cond c [] h =
      keeps-lead_cond c
      ∙ sym (
          rw (and_false (same_value (val c) (val (arg c))))
            (or_false (behind desc (val c) (val (arg c)))))
  keeps-arms_cond c (d ∷ rest) h =
      keeps-either3
        (both3 (eval val (same_cond arg native c))
          (eval val (compare desc (with_args arg (d ∷ rest)))))
        (eval val (lead_cond arg desc c))
      ∙ cc (
        keeps-lead_cond c,
        or_comm (same_value (val c) (val (arg c)) && after desc (values_of val arg (d ∷ rest)))
            (behind desc (val c) (val (arg c))),
        keeps-both3 (eval val (same_cond arg native c))
            (eval val (compare desc (with_args arg (d ∷ rest)))),
        same_cond-eval val arg desc native c,
        compare-after val arg desc (d ∷ rest) h,
        keeps-of_bool (after desc (values_of val arg (d ∷ rest))),
      )

-- On a page behind a cursor the predicate keeps the rows behind the cursor, and no other: NULL above
-- every number in the leading column if that is nullable, and no NULL in the columns behind it.
pub keyset_cond-after :
    (val : Text → Option ℕ) (arg : Text → Text) (nullable native desc : Bool) (c : Text)
    (rest : List Text)
    → All (NotNull val arg) rest
    → (nullable ≡ false → NotNull val arg c)
    → (rest ≢ []) ⊎ (null_value (val (arg c)) ≡ false)
    → keeps (eval val (keyset_cond arg nullable native desc c rest))
      ≡ after desc (values_of val arg (c ∷ rest))
keyset_cond-after val arg true native desc c rest h lead first =
    keeps-either3 (eval val (arms_cond arg native desc c rest)) (eval val (escape_cond arg c rest))
    ∙ rw (escape_not_first val arg desc c rest h first)
        (or_false _ ∙ keeps-arms_cond val arg native desc c rest h)
keyset_cond-after val arg false native desc c rest h lead first =
    keeps-either3 (eval val (compare desc (with_args arg (c ∷ rest))))
      (eval val (escape_cond arg c rest))
    ∙ rw (escape_not_first val arg desc c rest h first) (
        or_false _
        ∙ ap keeps (compare-after val arg desc (c ∷ rest) (lead refl, h))
        ∙ keeps-of_bool _)

-- On the first page, where every argument of the cursor is NULL, it keeps every row.
pub keyset_cond-first_page :
    (val : Text → Option ℕ) (arg : Text → Text) (nullable native desc : Bool) (c : Text)
    (rest : List Text)
    → All (λ d. null_value (val (arg d)) ≡ true) (c ∷ rest)
    → keeps (eval val (keyset_cond arg nullable native desc c rest)) ≡ true
keyset_cond-first_page val arg nullable native desc c rest h =
    keeps-either3 (eval val (main_cond arg nullable native desc c rest))
      (eval val (escape_cond arg c rest))
    ∙ rw (all_null c rest h) (or_true _)
  where
    all_null :
        (c : Text) (rest : List Text)
        → All (λ d. null_value (val (arg d)) ≡ true) (c ∷ rest)
        → eval val (escape_cond arg c rest) ≡ yes
    all_null c [] h = rw h.0 refl
    all_null c (d ∷ rest) h = rw (h.0, all_null d rest h.1) refl

    or_true : (b : Bool) → (b || true) ≡ true
    or_true true = refl
    or_true false = refl
