-- ===== src/Ch/Parse/Supported.antt =====
-- The types that have a canonical spelling: all but the ones that are kept as they were written.
use pggen.Prelude.{
  ℕ, ◌≡◌, refl, ◌⊎◌, inl, inr, Bool, true, false, ◌&&◌, [], ◌∷◌, ◌++◌, append-nil, All, arith, sym,
}
use pggen.Prelude.Text.{Text, codes}
use pggen.Prelude.Decimal.{itoa_ℕ}
use pggen.Ch.Types.{
  ChType, Elems, nullable, low_cardinality, array, map, tuple, unsupported, no_elems, elem,
  to_string,
}
use pggen.Ch.Parse.Lexer.{is_ident_byte}
use pggen.Ch.Parse.Ensures.{IsName}
use pggen.Ch.Parse.Canonical.{IsCanonical}

-- No part of the type is `Unsupported`.
abbrev mutual
  pub supported : ChType → Bool
  supported (unsupported raw) = false
  supported (nullable t) = supported t
  supported (low_cardinality t) = supported t
  supported (array t) = supported t
  supported (map k v) = supported k && supported v
  supported (tuple es) = all_supported es
  supported _ = true

  pub all_supported : Elems → Bool
  all_supported no_elems = true
  all_supported (elem name t es) = supported t && all_supported es

-- A text that begins with a name, and ends there or goes on with an opening parenthesis.
pub record Spelled (u : Text) : Type 0 where
  pub name : Text
  pub args : Text
  pub is_name : IsName name
  pub splits : u ≡ name ++ args
  pub opens_args : (args ≡ []) ⊎ ((inner : Text) × (args ≡ b'(' ∷ inner))

-- The names of the code's switch are names.
abbrev pub all_ident : Text → Bool
all_ident [] = true
all_ident (c ∷ s) = is_ident_byte c && all_ident s

all_ident-All : (s : Text) → all_ident s ≡ true → All (λ c. is_ident_byte c ≡ true) s
all_ident-All [] h = tt
all_ident-All (c ∷ s) h = (ground arith, all_ident-All s (ground arith))

pub IsName-all_ident : (c : ℕ) (s : Text) → all_ident (c ∷ s) ≡ true → IsName (c ∷ s)
IsName-all_ident c s h = record { nonempty = cc; ident_bytes = all_ident-All (c ∷ s) h }

Spelled-args :
    (c : ℕ) (s inner : Text) → all_ident (c ∷ s) ≡ true → Spelled ((c ∷ s) ++ b'(' ∷ inner)
Spelled-args c s inner h = record {
  name = c ∷ s;
  args = b'(' ∷ inner;
  is_name = IsName-all_ident c s h;
  splits = refl;
  opens_args = inr (inner, refl);
}

Spelled-bare : (name : Text) → IsName name → Spelled name
Spelled-bare name named = record {
  name = name;
  args = [];
  is_name = named;
  splits = sym (append-nil name);
  opens_args = inl refl;
}

pub to_string-Spelled : {t : ChType} → IsCanonical t → supported t ≡ true → Spelled (to_string t)
unfolding to_string is_ident_byte
to_string-Spelled (IsCanonical.scalar {name} named _ _) h = Spelled-bare name named
to_string-Spelled (IsCanonical.fixed_string i) h = Spelled-args _ (codes "ixedString") _ refl
to_string-Spelled (IsCanonical.decimal i j) h = Spelled-args _ (codes "ecimal") _ refl
to_string-Spelled (IsCanonical.date_time []) h =
    Spelled-bare _ (IsName-all_ident _ (codes "ateTime") refl)
to_string-Spelled (IsCanonical.date_time (c ∷ zone)) h = Spelled-args _ (codes "ateTime") _ refl
to_string-Spelled (IsCanonical.date_time64 [] i) h = Spelled-args _ (codes "ateTime64") _ refl
to_string-Spelled (IsCanonical.date_time64 (c ∷ zone) i) h =
    Spelled-args _ (codes "ateTime64") _ refl
to_string-Spelled (IsCanonical.nullable c) h = Spelled-args _ (codes "ullable") _ refl
to_string-Spelled (IsCanonical.low_cardinality c) h = Spelled-args _ (codes "owCardinality") _ refl
to_string-Spelled (IsCanonical.array c) h = Spelled-args _ (codes "rray") _ refl
to_string-Spelled (IsCanonical.map c d) h = Spelled-args _ (codes "ap") _ refl
to_string-Spelled (IsCanonical.enum {items = []} ne hs) h = absurd (ne refl)
to_string-Spelled (IsCanonical.enum {items = item ∷ items} ne ((i, inl (eight, _, _)), hs)) h =
    rw eight (unfold itoa_ℕ in Spelled-args _ (codes "num8") _ refl)
to_string-Spelled (IsCanonical.enum {items = item ∷ items} ne ((i, inr (sixteen, _, _)), hs)) h =
    rw sixteen (unfold itoa_ℕ in Spelled-args _ (codes "num16") _ refl)
to_string-Spelled (IsCanonical.tuple ne cs) h = Spelled-args _ (codes "uple") _ refl
to_string-Spelled (IsCanonical.unsupported raw) h = cc
