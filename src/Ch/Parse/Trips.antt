-- ===== src/Ch/Parse/Trips.antt =====
-- Each form of a type is read back from its spelling, if its parts are.
use pggen.Prelude.{
  ℕ, zero, suc, ◌<◌, ◌≡◌, refl, ap, ◌∙◌, Bool, true, false, [], ◌∷◌, ◌++◌, append_assoc, arith,
  ◌==◌, ◌||◌, length, length-append,
}
use pggen.Prelude.Result.{ok}
use pggen.Prelude.Text.{Text, codes, eq}
use pggen.Ch.Types.{ChType, fixed_string, date_time, nullable, low_cardinality, array, to_string}
use pggen.Ch.Parse.Lexer.{Parser, expect, skip_space, is_ident_byte, parse_int, parse_string}
use pggen.Ch.Parse.Ensures.{IsName}
use pggen.Ch.Parse.Spelling.{stops_at, parse_ident-IsName, skip_space-IsName}
use pggen.Ch.Parse.Supported.{Spelled, all_ident, IsName-all_ident}
use pggen.Ch.Parse.{
  paren, decimal_args, date_time64_args, enum_args, map_args, tuple_args, wrap, bare_type,
  type_args, type_named, opens, parse_type,
}

-- The text is at its end, at a comma, or at a closing parenthesis.
abbrev pub stops : Text → Bool
stops [] = true
stops (c ∷ s) = c == b',' || c == b')'

pub stops_ident :
    (rest : Text)
    → stops rest ≡ true
    → (stops_at is_ident_byte rest ≡ true) × (skip_space rest ≡ rest)
unfolding is_ident_byte skip_space
stops_ident [] h = (refl, refl)
stops_ident (c ∷ s) h = (ground arith, ground arith)

-- Behind spaces, `parse_type` reads `t` off its spelling.
abbrev pub Trip : ChType → Type 0
Trip t =
    (f : ℕ) (s rest : Text)
    → length (to_string t) < f
    → stops rest ≡ true
    → skip_space s ≡ to_string t ++ rest
    → parse_type f s ≡ ok (t, rest)

-- A name with an opening parenthesis goes to its arguments.
pub parse_type_args :
    (f : ℕ) (s : Text) (c : ℕ) (name inner : Text)
    → all_ident (c ∷ name) ≡ true
    → skip_space s ≡ (c ∷ name) ++ b'(' ∷ inner
    → parse_type (suc f) s ≡ type_args (parse_type f) f s (c ∷ name) (b'(' ∷ inner)
unfolding parse_type type_named
parse_type_args f s c name inner h e =
    rw
      (parse_ident-IsName s (b'(' ∷ inner) (IsName-all_ident c name h) e
        (unfold is_ident_byte in refl))
      (unfold skip_space in refl)

-- A name that nothing follows is a type by itself.
pub parse_type_bare :
    (f : ℕ) (s : Text) {name : Text} (rest : Text)
    → IsName name
    → stops rest ≡ true
    → skip_space s ≡ name ++ rest
    → parse_type (suc f) s ≡ ok (bare_type name, rest)
unfolding parse_type type_named
parse_type_bare f s rest named stop e =
    let (not_ident, same) = stops_ident rest stop in
    rw (parse_ident-IsName s rest named e not_ident, same, not_open rest stop)
  where
    not_open : (t : Text) → stops t ≡ true → opens t ≡ false
    not_open [] h = refl
    not_open (c ∷ t) h = ground arith

pub paren_trip {ℓ} :
    {A : Type ℓ} (argument : Parser A) (inner rest : Text) (a : A)
    → argument inner ≡ ok (a, b')' ∷ rest)
    → paren argument (b'(' ∷ inner) ≡ ok (a, rest)
unfolding paren expect skip_space
paren_trip argument inner rest a e = rw e

pub skip_space-Spelled : {u : Text} (rest : Text) → Spelled u → skip_space (u ++ rest) ≡ u ++ rest
skip_space-Spelled {u} rest sp =
    rw (sp.splits, append_assoc) (skip_space-IsName (sp.args ++ rest) sp.is_name)

-- Where the switch sends each name.
module _ (rec : Parser ChType) (f : ℕ) (start s : Text) where
  pub type_args_nullable : type_args rec f start (codes "Nullable") s ≡ wrap nullable (paren rec s)
  unfolding type_args eq
  type_args_nullable = refl

  pub type_args_low_cardinality :
      type_args rec f start (codes "LowCardinality") s ≡ wrap low_cardinality (paren rec s)
  unfolding type_args eq
  type_args_low_cardinality = refl

  pub type_args_array : type_args rec f start (codes "Array") s ≡ wrap array (paren rec s)
  unfolding type_args eq
  type_args_array = refl

  pub type_args_map : type_args rec f start (codes "Map") s ≡ map_args rec s
  unfolding type_args eq
  type_args_map = refl

  pub type_args_fixed_string :
      type_args rec f start (codes "FixedString") s ≡ wrap fixed_string (paren parse_int s)
  unfolding type_args eq
  type_args_fixed_string = refl

  pub type_args_decimal : type_args rec f start (codes "Decimal") s ≡ decimal_args s
  unfolding type_args eq
  type_args_decimal = refl

  pub type_args_date_time :
      type_args rec f start (codes "DateTime") s ≡ wrap date_time (paren parse_string s)
  unfolding type_args eq
  type_args_date_time = refl

  pub type_args_date_time64 : type_args rec f start (codes "DateTime64") s ≡ date_time64_args s
  unfolding type_args eq
  type_args_date_time64 = refl

  pub type_args_enum8 : type_args rec f start (codes "Enum8") s ≡ enum_args f 8 s
  unfolding type_args eq
  type_args_enum8 = refl

  pub type_args_enum16 : type_args rec f start (codes "Enum16") s ≡ enum_args f 16 s
  unfolding type_args eq
  type_args_enum16 = refl

  pub type_args_tuple : type_args rec f start (codes "Tuple") s ≡ tuple_args rec f s
  unfolding type_args eq
  type_args_tuple = refl

module _ (t : ChType) (sp : Spelled (to_string t)) (trip : Trip t) where
  -- `t` in parentheses.
  inside :
      (f : ℕ) (rest : Text)
      → length (to_string t) < f
      → paren (parse_type f) (b'(' ∷ (to_string t ++ b')' ∷ rest)) ≡ ok (t, rest)
  inside f rest lt =
      paren_trip (parse_type f) _ rest t
        (trip f _ (b')' ∷ rest) lt refl (skip_space-Spelled (b')' ∷ rest) sp))

  pub nullable-Trip : Trip (nullable t)
  unfolding to_string is_ident_byte
  nullable-Trip zero s rest lt stop e = absurd (omega arith)
  nullable-Trip (suc f) s rest lt stop e =
      parse_type_args f s _ (codes "ullable") (to_string t ++ b')' ∷ rest) refl
        (e ∙ ap (λ x. codes "Nullable(" ++ x) (append_assoc (to_string t) (codes ")") rest))
      ∙ type_args_nullable (parse_type f) f s _
      ∙ ap (wrap nullable) (inside f rest (omega (arith, length-append (to_string t) (codes ")"))))

  pub low_cardinality-Trip : Trip (low_cardinality t)
  unfolding to_string is_ident_byte
  low_cardinality-Trip zero s rest lt stop e = absurd (omega arith)
  low_cardinality-Trip (suc f) s rest lt stop e =
      parse_type_args f s _ (codes "owCardinality") (to_string t ++ b')' ∷ rest) refl
        (e ∙ ap (λ x. codes "LowCardinality(" ++ x) (append_assoc (to_string t) (codes ")") rest))
      ∙ type_args_low_cardinality (parse_type f) f s _
      ∙ ap (wrap low_cardinality)
          (inside f rest (omega (arith, length-append (to_string t) (codes ")"))))

  pub array-Trip : Trip (array t)
  unfolding to_string is_ident_byte
  array-Trip zero s rest lt stop e = absurd (omega arith)
  array-Trip (suc f) s rest lt stop e =
      parse_type_args f s _ (codes "rray") (to_string t ++ b')' ∷ rest) refl
        (e ∙ ap (λ x. codes "Array(" ++ x) (append_assoc (to_string t) (codes ")") rest))
      ∙ type_args_array (parse_type f) f s _
      ∙ ap (wrap array) (inside f rest (omega (arith, length-append (to_string t) (codes ")"))))
