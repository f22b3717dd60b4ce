-- ===== src/Codegen/Emit/Align.antt =====
-- The columns of the structs that are written.
use pggen.Prelude.{
  ℕ, zero, suc, ◌+◌, ◌-◌, ◌≤◌, ◌≡◌, refl, ap, ◌∙◌, List, [], ◌∷◌, ◌++◌, map, arith, ltb, true,
  false, Bool, if◌then◌else◌, All, All-both, All-weaken, append_assoc,
}
use pggen.Prelude.Text.{Text, codes, byte_length}
use pggen.Codegen.{
  Dialect, TemplatedParam, TemplatedColumn, TemplatedQuery, postgres, click_house, is_inline_params,
}
use pggen.Codegen.Emit.{concat, spaces, longest, padded, get_longest_input, get_longest_output}
use pggen.Codegen.Emit.Structs.{
  ch_tag, tag_width, param_line, row_line, emit_param_struct, row_struct_fields,
}

byte_length-append : (s t : Text) → byte_length (s ++ t) ≡ byte_length s + byte_length t
byte_length-append [] t = omega arith
byte_length-append (c ∷ s) t = omega (arith, byte_length-append s t)

byte_length-spaces : (n : ℕ) → byte_length (spaces n) ≡ n
byte_length-spaces zero = refl
byte_length-spaces (suc n) = omega (arith, byte_length-spaces n)

-- A text stands in a column of this width with so many blanks behind it.
abbrev pub Fills : ℕ → Text → ℕ → Type 0
Fills width s n = byte_length s + suc n ≡ width

module _ {ℓ} {A : Type ℓ} (f : A → Text) where
  longest-grows : (n : ℕ) (xs : List A) → n ≤ longest f n xs
  longest-grows n [] = omega arith
  longest-grows n (x ∷ xs) =
      ground (arith, longest-grows (if ltb n (byte_length (f x)) then byte_length (f x) else n) xs)

  longest-bounds : (n : ℕ) (xs : List A) → All (λ x. byte_length (f x) ≤ longest f n xs) xs
  longest-bounds n [] = tt
  longest-bounds n (x ∷ xs) =
      let m = if ltb n (byte_length (f x)) then byte_length (f x) else n in
      (ground (arith, longest-grows m xs), longest-bounds m xs)

  -- What is left of a column that is wider by one than the longest text.
  longest-Fills :
      (xs : List A)
      → All (λ x. Fills (suc (longest f 0 xs)) (f x) (longest f 0 xs - byte_length (f x))) xs
  longest-Fills xs = go xs (longest-bounds 0 xs)
    where
      go :
          (ys : List A)
          → All (λ x. byte_length (f x) ≤ longest f 0 xs) ys
          → All (λ x. Fills (suc (longest f 0 xs)) (f x) (longest f 0 xs - byte_length (f x))) ys
      go [] h = tt
      go (y ∷ ys) h = (omega (arith, h.0), go ys h.1)

-- A text that is filled up is followed by one blank at least.
padded-Fills :
    (m : ℕ) (s rest : Text)
    → byte_length s ≤ m
    → padded (suc m) s ++ rest ≡ s ++ (spaces (suc (m - byte_length s)) ++ rest)
padded-Fills m s rest h =
    append_assoc s (spaces (suc m - byte_length s)) rest
    ∙ ap (λ n. s ++ (spaces n ++ rest)) {y = suc (m - byte_length s)} (omega (arith, h))

-- A line with a name and a type, each filled up with blanks to the width of its column, and what
-- stands behind them.
abbrev pub Line : ℕ → ℕ → Text → Text → (Text → Type 0) → Text → Type 0
Line wn wt name type_name P line =
    (a : ℕ) × (b : ℕ) × (rest : Text) × Fills wn name a
    × Fills wt type_name b
    × P rest
    × (line ≡ b'\t' ∷ (name ++ (spaces (suc a) ++ (type_name ++ (spaces (suc b) ++ rest)))))

-- The lines of some fields.
pub data Lines {A : Type 0} (L : A → Text → Type 0) : List A → List Text → Type 0 where
  no_lines : Lines L [] []
  line :
      {x : A} {xs : List A} {t : Text} {ts : List Text}
      → L x t
      → Lines L xs ts
      → Lines L (x ∷ xs) (t ∷ ts)

Line-Line :
    (m n : ℕ) (name type_name rest : Text) (P : Text → Type 0)
    → byte_length name ≤ m
    → byte_length type_name ≤ n
    → P rest
    → Line
        (suc m)
        (suc n)
        name
        type_name
        P
        (b'\t' ∷ (padded (suc m) name ++ (padded (suc n) type_name ++ rest)))
Line-Line m n name type_name rest P h h' p = (
  m - byte_length name,
  n - byte_length type_name,
  rest,
  omega (arith, h),
  omega (arith, h'),
  p,
  ap (◌∷◌ b'\t') (
      padded-Fills m name (padded (suc n) type_name ++ rest) h
      ∙ ap (λ t. name ++ (spaces (suc (m - byte_length name)) ++ t))
          (padded-Fills n type_name rest h')),
)

Lines-map :
    {A : Type 0} (L : A → Text → Type 0) (f : A → Text) (xs : List A)
    → All (λ x. L x (f x)) xs
    → Lines L xs (map f xs)
Lines-map L f [] h = no_lines
Lines-map L f (x ∷ xs) h = line h.0 (Lines-map L f xs h.1)

module _ (quote : Text → Text) where
  -- The tag of a parameter, behind the blanks.
  abbrev pub IsInputTag : TemplatedParam → Text → Type 0
  IsInputTag p t = t ≡ codes "`json:" ++ (quote p.raw_name.pg_name ++ codes "`\n")

  -- The tag of a column: that of ClickHouse is filled up to a width of its own.
  abbrev pub IsTag : Dialect → ℕ → TemplatedColumn → Text → Type 0
  IsTag postgres wc c t = t ≡ codes "`json:" ++ (quote c.pg_name ++ codes "`\n")
  IsTag click_house wc c t =
      (n : ℕ) × Fills wc (codes "ch:" ++ quote c.pg_name) n
      × (t
          ≡ b'`' ∷ (codes "ch:" ++ quote c.pg_name)
            ++ (spaces (suc n) ++ (codes "json:" ++ (quote c.pg_name ++ codes "`\n"))))

  abbrev pub InputLine : ℕ → ℕ → TemplatedParam → Text → Type 0
  InputLine wn wt p = Line wn wt p.upper_name p.qual_type (IsInputTag p)

  abbrev pub ColumnLine : Dialect → ℕ → ℕ → ℕ → TemplatedColumn → Text → Type 0
  ColumnLine dialect wn wt wc c = Line wn wt c.upper_name c.qual_type (IsTag dialect wc c)

  param_lines :
      (m n : ℕ) (inputs : List TemplatedParam)
      → All
          (λ (p : TemplatedParam). (byte_length p.upper_name ≤ m) × (byte_length p.qual_type ≤ n))
          inputs
      → All (λ p. InputLine (suc m) (suc n) p (param_line quote (suc m) (suc n) p)) inputs
  unfolding param_line
  param_lines m n [] h = tt
  param_lines m n (p ∷ inputs) h = (
    Line-Line m n p.upper_name p.qual_type _ (IsInputTag p) h.0.0 h.0.1 refl,
    param_lines m n inputs h.1,
  )

  row_line-ColumnLine :
      (dialect : Dialect) (m n k : ℕ) (c : TemplatedColumn)
      → byte_length c.upper_name ≤ m
      → byte_length c.qual_type ≤ n
      → byte_length (ch_tag quote c.pg_name) ≤ k
      → ColumnLine dialect
          (suc m)
          (suc n)
          (suc k)
          c
          (row_line quote dialect (suc m) (suc n) (suc k) c)
  unfolding row_line
  row_line-ColumnLine postgres m n k c h h' h'' =
      Line-Line m n c.upper_name c.qual_type _ (IsTag postgres (suc k) c) h h' refl
  row_line-ColumnLine click_house m n k c h h' h'' =
      Line-Line m n c.upper_name c.qual_type _ (IsTag click_house (suc k) c) h h' (
        k - byte_length (ch_tag quote c.pg_name),
        omega (arith, h''),
        ap (◌∷◌ b'`') (padded-Fills k (ch_tag quote c.pg_name) _ h''),
      )

  -- The three bounds of a column.
  abbrev Bounded : ℕ → ℕ → ℕ → TemplatedColumn → Type 0
  Bounded m n k c =
      ((byte_length c.upper_name ≤ m) × (byte_length c.qual_type ≤ n))
      × (byte_length (ch_tag quote c.pg_name) ≤ k)

  longest-Bounded :
      (cols : List TemplatedColumn)
      → All
          (Bounded
            (longest (λ (c : TemplatedColumn). c.upper_name) 0 cols)
            (longest (λ (c : TemplatedColumn). c.qual_type) 0 cols)
            (longest (λ (c : TemplatedColumn). ch_tag quote c.pg_name) 0 cols))
          cols
  longest-Bounded cols =
      All-both _ _ cols
        (All-both _ _ cols (longest-bounds (λ (c : TemplatedColumn). c.upper_name) 0 cols)
          (longest-bounds (λ (c : TemplatedColumn). c.qual_type) 0 cols))
        (longest-bounds (λ (c : TemplatedColumn). ch_tag quote c.pg_name) 0 cols)

  row_struct_fields-Lines :
      (cols : List TemplatedColumn) (dialect : Dialect)
      → (wn : ℕ) × (wt : ℕ) × (wc : ℕ) × (lines : List Text) × Lines
          (ColumnLine dialect wn wt wc)
          cols
          lines
        × (row_struct_fields quote cols dialect ≡ concat lines)
  unfolding row_struct_fields get_longest_output tag_width
  row_struct_fields-Lines cols postgres =
      let m = longest (λ (c : TemplatedColumn). c.upper_name) 0 cols in
      let n = longest (λ (c : TemplatedColumn). c.qual_type) 0 cols in
      let k = longest (λ (c : TemplatedColumn). ch_tag quote c.pg_name) 0 cols in
      (
        suc m,
        suc n,
        0,
        _,
        Lines-map (ColumnLine postgres (suc m) (suc n) 0)
            (row_line quote postgres (suc m) (suc n) 0) cols
            (All-weaken (Bounded m n k)
              (λ c.
                ColumnLine postgres (suc m) (suc n) 0 c
                  (row_line quote postgres (suc m) (suc n) 0 c))
              (λ c h. unfold row_line in row_line-ColumnLine postgres m n k c h.0.0 h.0.1 h.1) cols
              (longest-Bounded cols)),
        refl,
      )
  row_struct_fields-Lines cols click_house =
      let m = longest (λ (c : TemplatedColumn). c.upper_name) 0 cols in
      let n = longest (λ (c : TemplatedColumn). c.qual_type) 0 cols in
      let k = longest (λ (c : TemplatedColumn). ch_tag quote c.pg_name) 0 cols in
      (
        suc m,
        suc n,
        suc k,
        _,
        Lines-map (ColumnLine click_house (suc m) (suc n) (suc k))
            (row_line quote click_house (suc m) (suc n) (suc k)) cols
            (All-weaken (Bounded m n k)
              (λ c.
                ColumnLine click_house (suc m) (suc n) (suc k) c
                  (row_line quote click_house (suc m) (suc n) (suc k) c))
              (λ c h. row_line-ColumnLine click_house m n k c h.0.0 h.0.1 h.1) cols
              (longest-Bounded cols)),
        refl,
      )

  -- What is written of a query's parameters: nothing where they are written inline.
  abbrev pub params_struct : Bool → Text → List Text → Text
  params_struct true name lines = []
  params_struct false name lines =
      codes "\n\ntype " ++ (name ++ (codes "Params struct {\n" ++ (concat lines ++ codes "}")))

  emit_param_struct-Lines :
      (tq : TemplatedQuery)
      → (wn : ℕ) × (wt : ℕ) × (lines : List Text) × Lines (InputLine wn wt) tq.inputs lines
        × (emit_param_struct quote tq ≡ params_struct (is_inline_params tq) tq.name lines)
  unfolding emit_param_struct get_longest_input
  emit_param_struct-Lines tq =
      let m = longest (λ (p : TemplatedParam). p.upper_name) 0 tq.inputs in
      let n = longest (λ (p : TemplatedParam). p.qual_type) 0 tq.inputs in
      (
        suc m,
        suc n,
        _,
        Lines-map (InputLine (suc m) (suc n)) (param_line quote (suc m) (suc n)) tq.inputs (
            param_lines m n tq.inputs (
              All-both _ _ tq.inputs
                (longest-bounds (λ (p : TemplatedParam). p.upper_name) 0 tq.inputs)
                (longest-bounds (λ (p : TemplatedParam). p.qual_type) 0 tq.inputs))),
        go (is_inline_params tq) (map (param_line quote (suc m) (suc n)) tq.inputs),
      )
    where
      go :
          (b : Bool) (lines : List Text)
          → (if b
              then []
              else concat (
                  codes "\n\ntype "
                  ∷ tq.name
                  ∷ codes "Params struct {\n"
                  ∷ concat lines
                  ∷ codes "}"
                  ∷ []))
            ≡ params_struct b tq.name lines
      go true lines = refl
      go false lines = refl

  -- The text that is written of a query's params struct, unless its parameters are inline, and
  -- of a row struct has a line for each field, in their order: a tab, the name, the type and the
  -- tag, where the name and the type, and in a row struct of ClickHouse the driver's tag, each
  -- have one blank or more behind them, and are as wide with these in each line.
  pub struct_columns_fill :
      (tq : TemplatedQuery) (cols : List TemplatedColumn) (dialect : Dialect)
      → ((wn : ℕ) × (wt : ℕ) × (lines : List Text) × Lines (InputLine wn wt) tq.inputs lines
          × (emit_param_struct quote tq ≡ params_struct (is_inline_params tq) tq.name lines))
        × ((wn : ℕ) × (wt : ℕ) × (wc : ℕ) × (lines : List Text) × Lines
              (ColumnLine dialect wn wt wc)
              cols
              lines
            × (row_struct_fields quote cols dialect ≡ concat lines))
  struct_columns_fill tq cols dialect =
      (emit_param_struct-Lines tq, row_struct_fields-Lines cols dialect)
