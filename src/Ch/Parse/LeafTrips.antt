-- ===== src/Ch/Parse/LeafTrips.antt =====
-- The types with no type inside are read back from their spellings.
use pggen.Prelude.{
  ℕ, zero, suc, ◌≡◌, refl, ap, ◌∙◌, ◌≢◌, true, false, [], ◌∷◌, ◌++◌, append_assoc, arith,
}
use pggen.Prelude.Int.{ℤ}
use pggen.Prelude.Decimal.{itoa, IsInt, is_digit}
use pggen.Prelude.Result.{ok}
use pggen.Prelude.Text.{Text, codes, eq, eq_iff}
use pggen.Ch.Types.{scalar, fixed_string, decimal, date_time, date_time64, to_string, quote}
use pggen.Ch.Parse.Lexer.{
  accept, expect, skip_space, is_blank, is_ident_byte, parse_int, parse_string,
}
use pggen.Ch.Parse.Ensures.{IsName}
use pggen.Ch.Parse.Spelling.{parse_string-quote, parse_int-itoa, skip_space-itoa}
use pggen.Ch.Parse.Supported.{IsName-all_ident}
use pggen.Ch.Parse.{decimal_args, date_time64_args, wrap, bare_type, parse_type}
use pggen.Ch.Parse.Trips.{
  Trip, parse_type_args, parse_type_bare, paren_trip, type_args_fixed_string, type_args_decimal,
  type_args_date_time, type_args_date_time64,
}

pub expect_at_once : (c : ℕ) (t : Text) → is_blank c ≡ false → expect c (c ∷ t) ≡ ok t
unfolding expect accept skip_space
expect_at_once c t h = ground arith

-- A number, and what follows it.
pub int_trip :
    (n : ℤ) (c : ℕ) (rest : Text)
    → IsInt n
    → is_digit c ≡ false
    → parse_int (itoa n ++ c ∷ rest) ≡ ok (n, c ∷ rest)
int_trip n c rest i h = parse_int-itoa _ n (c ∷ rest) i (skip_space-itoa n (c ∷ rest)) (rw h)

-- A number behind a comma and a space.
int_trip_space :
    (n : ℤ) (c : ℕ) (rest : Text)
    → IsInt n
    → is_digit c ≡ false
    → parse_int (b' ' ∷ (itoa n ++ c ∷ rest)) ≡ ok (n, c ∷ rest)
int_trip_space n c rest i h =
    parse_int-itoa _ n (c ∷ rest) i (unfold skip_space in skip_space-itoa n (c ∷ rest)) (rw h)

pub string_trip : (zone rest : Text) → parse_string (quote zone ++ rest) ≡ ok (zone, rest)
string_trip zone rest = parse_string-quote _ zone rest (unfold quote skip_space in refl)

pub scalar-Trip :
    {name : Text}
    → IsName name
    → name ≢ codes "DateTime"
    → name ≢ codes "DateTime64"
    → Trip (scalar name)
unfolding to_string
scalar-Trip named n m zero s rest lt stop e = absurd (omega arith)
scalar-Trip {name} named n m (suc f) s rest lt stop e =
    parse_type_bare f s rest named stop e
    ∙ unfold bare_type in
      ground (arith, eq_iff name (codes "DateTime"), eq_iff name (codes "DateTime64"))

pub fixed_string-Trip : (n : ℤ) → IsInt n → Trip (fixed_string n)
unfolding to_string is_ident_byte
fixed_string-Trip n i zero s rest lt stop e = absurd (omega arith)
fixed_string-Trip n i (suc f) s rest lt stop e =
    parse_type_args f s _ (codes "ixedString") (itoa n ++ b')' ∷ rest) refl
      (e ∙ ap (λ x. codes "FixedString(" ++ x) (append_assoc (itoa n) (codes ")") rest))
    ∙ type_args_fixed_string (parse_type f) f s _
    ∙ ap (wrap fixed_string) (paren_trip parse_int _ rest n (int_trip n b')' rest i refl))

pub decimal-Trip : (p c : ℤ) → IsInt p → IsInt c → Trip (decimal p c)
unfolding to_string is_ident_byte
decimal-Trip p c i j zero s rest lt stop e = absurd (omega arith)
decimal-Trip p c i j (suc f) s rest lt stop e =
    parse_type_args f s _ (codes "ecimal") (itoa p ++ b',' ∷ b' ' ∷ (itoa c ++ b')' ∷ rest)) refl
      (e ∙ spell)
    ∙ type_args_decimal (parse_type f) f s _
    ∙ args
  where
    spell :
        (codes "Decimal(" ++ (itoa p ++ (codes ", " ++ (itoa c ++ codes ")")))) ++ rest
        ≡ codes "Decimal(" ++ (itoa p ++ b',' ∷ b' ' ∷ (itoa c ++ b')' ∷ rest))
    spell = simp append_assoc

    args :
        decimal_args (b'(' ∷ (itoa p ++ b',' ∷ b' ' ∷ (itoa c ++ b')' ∷ rest)))
        ≡ ok (decimal p c, rest)
    args =
        unfold decimal_args in
        rw (
          expect_at_once b'(' _ refl,
          int_trip p b',' (b' ' ∷ (itoa c ++ b')' ∷ rest)) i refl,
          expect_at_once b',' _ refl,
          int_trip_space c b')' rest j refl,
          expect_at_once b')' rest refl,
        )

pub date_time-Trip : (zone : Text) → Trip (date_time zone)
unfolding to_string is_ident_byte eq
date_time-Trip zone zero s rest lt stop e = absurd (omega arith)
date_time-Trip [] (suc f) s rest lt stop e =
    parse_type_bare f s rest (IsName-all_ident _ (codes "ateTime") refl) stop e
    ∙ unfold bare_type in refl
date_time-Trip (c ∷ zone) (suc f) s rest lt stop e =
    parse_type_args f s _ (codes "ateTime") (quote (c ∷ zone) ++ b')' ∷ rest) refl
      (e ∙ ap (λ x. codes "DateTime(" ++ x) (append_assoc (quote (c ∷ zone)) (codes ")") rest))
    ∙ type_args_date_time (parse_type f) f s _
    ∙ ap (wrap date_time)
        (paren_trip parse_string _ rest (c ∷ zone) (string_trip (c ∷ zone) (b')' ∷ rest)))

pub date_time64-Trip : (p : ℤ) (zone : Text) → IsInt p → Trip (date_time64 p zone)
unfolding to_string is_ident_byte
date_time64-Trip p zone i zero s rest lt stop e = absurd (omega arith)
date_time64-Trip p [] i (suc f) s rest lt stop e =
    parse_type_args f s _ (codes "ateTime64") (itoa p ++ b')' ∷ rest) refl
      (e ∙ ap (λ x. codes "DateTime64(" ++ x) (append_assoc (itoa p) (codes ")") rest))
    ∙ type_args_date_time64 (parse_type f) f s _
    ∙ args
  where
    no_comma : accept b',' (b')' ∷ rest) ≡ (false, b')' ∷ rest)
    no_comma = unfold accept skip_space in refl

    args : date_time64_args (b'(' ∷ (itoa p ++ b')' ∷ rest)) ≡ ok (date_time64 p [], rest)
    args =
        unfold date_time64_args in
        rw (
          expect_at_once b'(' _ refl,
          int_trip p b')' rest i refl,
          no_comma,
          expect_at_once b')' rest refl,
        )
date_time64-Trip p (c ∷ z) i (suc f) s rest lt stop e =
    parse_type_args f s _ (codes "ateTime64")
      (itoa p ++ b',' ∷ b' ' ∷ (quote (c ∷ z) ++ b')' ∷ rest)) refl (e ∙ spell)
    ∙ type_args_date_time64 (parse_type f) f s _
    ∙ args
  where
    spell :
        (codes "DateTime64(" ++ (itoa p ++ (codes ", " ++ (quote (c ∷ z) ++ codes ")")))) ++ rest
        ≡ codes "DateTime64(" ++ (itoa p ++ b',' ∷ b' ' ∷ (quote (c ∷ z) ++ b')' ∷ rest))
    spell = simp append_assoc

    comma : (t : Text) → accept b',' (b',' ∷ t) ≡ (true, t)
    comma t = unfold accept skip_space in refl

    zone_trip : parse_string (b' ' ∷ (quote (c ∷ z) ++ b')' ∷ rest)) ≡ ok (c ∷ z, b')' ∷ rest)
    zone_trip = parse_string-quote _ (c ∷ z) (b')' ∷ rest) (unfold quote skip_space in refl)

    args :
        date_time64_args (b'(' ∷ (itoa p ++ b',' ∷ b' ' ∷ (quote (c ∷ z) ++ b')' ∷ rest)))
        ≡ ok (date_time64 p (c ∷ z), rest)
    args =
        unfold date_time64_args in
        rw (
          expect_at_once b'(' _ refl,
          int_trip p b',' (b' ' ∷ (quote (c ∷ z) ++ b')' ∷ rest)) i refl,
          comma _,
          zone_trip,
          expect_at_once b')' rest refl,
        )
