-- ===== src/Ch/Zero/Errors.antt =====
-- The types that have a zero literal.
use pggen.Prelude.{
  Bool, true, false, ◌&&◌, ℕ, ◌≡◌, refl, ◌≢◌, List, [], ◌∷◌, if◌then◌else◌, ◌||◌, ◌++◌, arith,
}
use pggen.Prelude.Int.{ℤ}
use pggen.Prelude.Result.{Result, ok, err, ◌>>=◌}
use pggen.Prelude.Text.{Text, codes, eq, eq_sym, contains}
use pggen.Ch.Types.{
  ChType, Elems, no_elems, elem, scalar, fixed_string, decimal, date_time, date_time64, nullable,
  low_cardinality, array, map, enum, tuple, unsupported,
}
use pggen.Ch.Parse.Canonical.{IsCanonical, AreCanonical}
use pggen.Ch.Parse.{parse}
use pggen.Ch.Parse.Sound.{parse-IsCanonical}
use pggen.Ch.Zero.{
  ZeroError, empty_enum, unsupported_type, unknown_scalar, scalar_zero, numbers, zero_literal,
  zero_literals,
}

-- The names of the types without arguments that have a literal.
abbrev pub literal_names : List Text
literal_names =
    codes "String"
    ∷ codes "Bool"
    ∷ codes "Boolean"
    ∷ codes "Int8"
    ∷ codes "Int16"
    ∷ codes "Int32"
    ∷ codes "Int64"
    ∷ codes "Int128"
    ∷ codes "Int256"
    ∷ codes "UInt8"
    ∷ codes "UInt16"
    ∷ codes "UInt32"
    ∷ codes "UInt64"
    ∷ codes "UInt128"
    ∷ codes "UInt256"
    ∷ codes "Float32"
    ∷ codes "Float64"
    ∷ codes "Date"
    ∷ codes "Date32"
    ∷ codes "DateTime"
    ∷ codes "DateTime64"
    ∷ codes "UUID"
    ∷ codes "IPv4"
    ∷ codes "IPv6"
    ∷ []

-- A type has a literal if no part of it that stands outside an array and a map is unsupported or
-- has another name.
abbrev mutual
  pub has_literal : ChType → Bool
  has_literal (scalar name) = contains literal_names name
  has_literal (fixed_string n) = true
  has_literal (decimal p s) = true
  has_literal (date_time zone) = true
  has_literal (date_time64 p zone) = true
  has_literal (nullable t) = has_literal t
  has_literal (low_cardinality t) = has_literal t
  has_literal (array t) = true
  has_literal (map k v) = true
  has_literal (enum bits items) = true
  has_literal (tuple es) = have_literals es
  has_literal (unsupported raw) = false

  pub have_literals : Elems → Bool
  have_literals no_elems = true
  have_literals (elem name t es) = has_literal t && have_literals es

-- The error names an unsupported type or a name without a literal, not an enum without members.
abbrev pub IsTypeError : ZeroError → Type 0
IsTypeError (empty_enum t) = ⊥
IsTypeError (unsupported_type raw) = Unit
IsTypeError (unknown_scalar name) = contains literal_names name ≡ false

-- A result that is a value exactly if a test is passed, and else one of the errors of types.
abbrev pub Succeeds {ℓ} : {A : Type ℓ} → Bool → Result ZeroError A → Type 0
Succeeds b (ok a) = b ≡ true
Succeeds b (err e) = (b ≡ false) × IsTypeError e

Succeeds-bind {ℓ κ} :
    {A : Type ℓ} {B : Type κ} (b c : Bool) (r : Result ZeroError A) (f : A → Result ZeroError B)
    → Succeeds b r
    → ((a : A) → Succeeds c (f a))
    → Succeeds (b && c) (r >>= f)
Succeeds-bind true c (ok a) f h k = k a
Succeeds-bind false c (ok a) f h k = cc
Succeeds-bind true c (err e) f h k = cc
Succeeds-bind false c (err e) f h k = (refl, h.1)

-- The switch of `scalarZero`, on the results of its tests.
switch_Succeeds :
    (is_string is_bool is_number is_date is_date_time is_uuid is_ipv4 is_ipv6 : Bool) (name : Text)
    → contains literal_names name ≡ (
        is_string
        || (is_bool
            || (is_number || (is_date || (is_date_time || (is_uuid || (is_ipv4 || is_ipv6)))))))
    → Succeeds (contains literal_names name) (
        if is_string
        then ok []
        else if is_bool
        then ok (codes "false")
        else if is_number
        then ok (codes "0")
        else if is_date
        then ok (codes "1970-01-01")
        else if is_date_time
        then ok (codes "1970-01-01 00:00:00")
        else if is_uuid
        then ok (codes "00000000-0000-0000-0000-000000000000")
        else if is_ipv4
        then ok (codes "0.0.0.0")
        else if is_ipv6
        then ok (codes "::")
        else err (unknown_scalar name))
switch_Succeeds true _ _ _ _ _ _ _ name h = h
switch_Succeeds false true _ _ _ _ _ _ name h = h
switch_Succeeds false false true _ _ _ _ _ name h = h
switch_Succeeds false false false true _ _ _ _ name h = h
switch_Succeeds false false false false true _ _ _ name h = h
switch_Succeeds false false false false false true _ _ name h = h
switch_Succeeds false false false false false false true _ name h = h
switch_Succeeds false false false false false false false true name h = h
switch_Succeeds false false false false false false false false name h = (h, h)

contains-append :
    (xs ys : List Text) (x : Text) → contains (xs ++ ys) x ≡ (contains xs x || contains ys x)
unfolding contains
contains-append [] ys x = refl
contains-append (y ∷ xs) ys x = let rest = contains-append xs ys x in ground (arith, rest, eq y x)

names-tests :
    (s b b' d d' t t' u v w x : Text) (ns : List Text)
    → contains (s ∷ b ∷ b' ∷ (ns ++ d ∷ d' ∷ t ∷ t' ∷ u ∷ v ∷ w ∷ [])) x ≡ (
        eq x s
        || ((eq x b || eq x b')
            || (contains ns x
                || ((eq x d || eq x d')
                    || ((eq x t || eq x t') || (eq x u || (eq x v || eq x w)))))))
unfolding contains
names-tests s b b' d d' t t' u v w x ns =
    rw
      (
        contains-append ns (d ∷ d' ∷ t ∷ t' ∷ u ∷ v ∷ w ∷ []) x,
        contains,
        eq_sym s x,
        eq_sym b x,
        eq_sym b' x,
        eq_sym d x,
        eq_sym d' x,
        eq_sym t x,
        eq_sym t' x,
        eq_sym u x,
        eq_sym v x,
        eq_sym w x,
      )
      (shape (eq x s) (eq x b) (eq x b') (contains ns x) (eq x d) (eq x d') (eq x t) (eq x t')
        (eq x u) (eq x v) (eq x w))
  where
    shape :
        (s b b' n d d' t t' u v w : Bool)
        → (s || (b || (b' || (n || (d || (d' || (t || (t' || (u || (v || (w || false)))))))))))
          ≡ (s || ((b || b') || (n || ((d || d') || ((t || t') || (u || (v || w)))))))
    shape s b b' n d d' t t' u v w = ground arith

scalar_zero-Succeeds : (name : Text) → Succeeds (contains literal_names name) (scalar_zero name)
unfolding scalar_zero
scalar_zero-Succeeds name =
    switch_Succeeds (eq name (codes "String")) (eq name (codes "Bool") || eq name (codes "Boolean"))
      (contains numbers name) (eq name (codes "Date") || eq name (codes "Date32"))
      (eq name (codes "DateTime") || eq name (codes "DateTime64")) (eq name (codes "UUID"))
      (eq name (codes "IPv4")) (eq name (codes "IPv6")) name
      (names-tests (codes "String") (codes "Bool") (codes "Boolean") (codes "Date") (codes "Date32")
        (codes "DateTime") (codes "DateTime64") (codes "UUID") (codes "IPv4") (codes "IPv6") name
        numbers)

enum_Succeeds :
    (bits : ℕ) (items : List (Text × ℤ))
    → items ≢ []
    → Succeeds true (zero_literal (ChType.enum bits items))
unfolding zero_literal
enum_Succeeds bits [] ne = absurd (ne refl)
enum_Succeeds bits ((label, v) ∷ items) ne = refl

and_true : {A : Type 0} (b : Bool) (r : Result ZeroError A) → Succeeds (b && true) r → Succeeds b r
and_true true r h = h
and_true false r h = h

mutual
  unfolding zero_literal zero_literals

  zero_literal-Succeeds : {t : ChType} → IsCanonical t → Succeeds (has_literal t) (zero_literal t)
  zero_literal-Succeeds (IsCanonical.scalar {name} h a b) = scalar_zero-Succeeds name
  zero_literal-Succeeds (IsCanonical.fixed_string n) = refl
  zero_literal-Succeeds (IsCanonical.decimal p s) = refl
  zero_literal-Succeeds (IsCanonical.date_time zone) = refl
  zero_literal-Succeeds (IsCanonical.date_time64 zone h) = refl
  zero_literal-Succeeds (IsCanonical.nullable h) = zero_literal-Succeeds h
  zero_literal-Succeeds (IsCanonical.low_cardinality h) = zero_literal-Succeeds h
  zero_literal-Succeeds (IsCanonical.array h) = refl
  zero_literal-Succeeds (IsCanonical.map h h') = refl
  zero_literal-Succeeds (IsCanonical.enum {bits} {items} ne h) = enum_Succeeds bits items ne
  zero_literal-Succeeds (IsCanonical.tuple {es} ne h) =
      and_true (have_literals es) (zero_literal (tuple es)) (
        Succeeds-bind (have_literals es) true (zero_literals es) _ (zero_literals-Succeeds h)
          (λ a. refl))
  zero_literal-Succeeds (IsCanonical.unsupported raw) = (refl, tt)

  zero_literals-Succeeds :
      {es : Elems} → AreCanonical es → Succeeds (have_literals es) (zero_literals es)
  zero_literals-Succeeds AreCanonical.no_elems = refl
  zero_literals-Succeeds (AreCanonical.elem {name} {t} {es} n h hs) =
      Succeeds-bind (has_literal t) (have_literals es) (zero_literal t) _ (zero_literal-Succeeds h)
        (λ lit. and_true (have_literals es) (zero_literals es >>= λ parts. ok (lit ∷ parts)) (
          Succeeds-bind (have_literals es) true (zero_literals es) _ (zero_literals-Succeeds hs)
            (λ a. refl)))

-- ZeroLiteral returns a literal for a type that Parse builds exactly if, outside arrays and
-- maps, the type has no unsupported part and no name but those listed as having one; and its
-- error is then about such a part or name, never about an enum without members.
pub zero_literal-parse :
    (name : Text) {t : ChType} → parse name ≡ ok t → Succeeds (has_literal t) (zero_literal t)
zero_literal-parse name h = zero_literal-Succeeds (parse-IsCanonical name h)
