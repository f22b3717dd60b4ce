-- ===== src/Ch/Parse/Ensures.antt =====
-- What every run of the lexing functions ensures: they do not run out of fuel, and what they leave
-- is shorter than what they were given.
use pggen.Prelude.{
  ℕ, zero, suc, ◌+◌, ◌-◌, ◌≤◌, ◌<◌, ◌≡◌, refl, ◌≢◌, inl, inr, Bool, true, false, [], ◌∷◌, ◌++◌,
  Option, none, some, arith, ◌==◌, if◌then◌else◌, length, length-append, Bool-cases, All,
}
use mathlib.Core.Path.{subst}
use pggen.Prelude.Int.{ℤ}
use pggen.Prelude.Decimal.{atoi, IsInt, is_digit, atoi-IsInt}
use pggen.Prelude.Result.{Result, ok, err, ◌>>=◌}
use pggen.Prelude.Text.{Text}
use pggen.Ch.Parse.Lexer.{
  ParseError, failed, out_of_fuel, skip_space, accept_at, accept, expect, is_ident_byte, span,
  ident_found, parse_ident, string_loop, unescape_byte, parse_string, sign_span, number_at,
  number_found, parse_int, balanced_loop, skip_balanced,
}

-- The run did not want for fuel, and `P` holds of its value if it has one.
pub data Ensures {ℓ κ} {A : Type ℓ} (P : A → Type κ) : Result ParseError A → Type (ℓ ⊔ κ) where
  parsed : {a : A} → P a → Ensures P (ok a)
  refused : {why : _} {rest : Text} → Ensures P (err (failed why rest))

module _ {ℓ κ ℓ' κ'} {A : Type ℓ} {B : Type ℓ'} {P : A → Type κ} {Q : B → Type κ'} where
  pub Ensures-bind :
      {r : Result ParseError A} {f : A → Result ParseError B}
      → Ensures P r
      → ((a : A) → P a → Ensures Q (f a))
      → Ensures Q (r >>= f)
  Ensures-bind (parsed {a} h) k = k a h
  Ensures-bind refused k = refused

module _ {ℓ κ} {A : Type ℓ} {P : A → Type κ} where
  pub Ensures-ok : {r : Result ParseError A} {a : A} → Ensures P r → r ≡ ok a → P a
  Ensures-ok (parsed h) e = subst P (cc) h
  Ensures-ok refused e = cc

  pub Ensures-ne-out_of_fuel : {r : Result ParseError A} → Ensures P r → r ≢ err out_of_fuel
  Ensures-ne-out_of_fuel (parsed h) = cc
  Ensures-ne-out_of_fuel refused = cc

module _ {ℓ κ κ'} {A : Type ℓ} {P : A → Type κ} {Q : A → Type κ'} where
  pub Ensures-weaken : {r : Result ParseError A} → Ensures P r → ((a : A) → P a → Q a) → Ensures Q r
  Ensures-weaken (parsed {a} h) k = parsed (k a h)
  Ensures-weaken refused k = refused

module _ {ℓ κ} {A : Type ℓ} {P : A → Type κ} where
  pub Ensures-if :
      (b : Bool) {x y : Result ParseError A}
      → (b ≡ true → Ensures P x)
      → (b ≡ false → Ensures P y)
      → Ensures P (if b then x else y)
  Ensures-if true hx hy = hx refl
  Ensures-if false hx hy = hy refl

pub length-skip_space : (s : Text) → length (skip_space s) ≤ length s
unfolding skip_space
length-skip_space [] = omega arith
length-skip_space (c ∷ s) = ground (arith, length-skip_space s)

-- `accept` reads a byte if it finds it.
pub length-accept :
    (c : ℕ) (s : Text)
    → (length (accept c s).1 ≤ length s)
      × ((accept c s).0 ≡ true → length (accept c s).1 < length s)
unfolding accept
length-accept c s = go (skip_space s) (length-skip_space s)
  where
    go :
        (t : Text)
        → length t ≤ length s
        → (length (accept_at c t).1 ≤ length s)
          × ((accept_at c t).0 ≡ true → length (accept_at c t).1 < length s)
    go [] h = (h, λ e. cc)
    go (d ∷ t) h = (ground arith, λ e. ground arith)

abbrev pub Shorter : Text → Text → Type 0
Shorter s rest = length rest < length s

pub expect-Ensures : (c : ℕ) (s : Text) → Ensures (Shorter s) (expect c s)
unfolding expect
expect-Ensures c s =
    Ensures-if (accept c s).0 (λ e. parsed ((length-accept c s).1 e)) (λ _. refused)

pub length-span : (p : ℕ → Bool) (s : Text) → length (span p s).0 + length (span p s).1 ≡ length s
unfolding span
length-span p [] = omega arith
length-span p (c ∷ s) = ground (arith, length-span p s)

pub span-All : (p : ℕ → Bool) (s : Text) → All (λ c. p c ≡ true) (span p s).0
unfolding span
span-All p [] = tt
span-All p (c ∷ s) = elim (Bool-cases (p c)) [ inl e ↦ rw e (e, span-All p s) | inr e ↦ rw e tt ]

-- A name of a type or of an element of a tuple.
pub record IsName (name : Text) : Type 0 where
  pub nonempty : name ≢ []
  pub ident_bytes : All (λ c. is_ident_byte c ≡ true) name

pub parse_ident-Ensures :
    (s : Text) → Ensures (λ (name, rest). IsName name × Shorter s rest) (parse_ident s)
unfolding parse_ident
parse_ident-Ensures s =
    go (span is_ident_byte (skip_space s)) (span-All is_ident_byte (skip_space s))
      (length-span is_ident_byte (skip_space s))
  where
    go :
        (found : Text × Text)
        → All (λ c. is_ident_byte c ≡ true) found.0
        → length found.0 + length found.1 ≡ length (skip_space s)
        → Ensures (λ (name, rest). IsName name × Shorter s rest) (ident_found found)
    go ([], rest) h e = refused
    go (c ∷ name, rest) h e =
        parsed (record { nonempty = cc; ident_bytes = h }, omega (arith, length-skip_space s))

string_loop-Ensures :
    (sb s : Text) → Ensures (λ (text, rest). length rest ≤ length s) (string_loop sb s)
unfolding string_loop
string_loop-Ensures sb [] = refused
string_loop-Ensures sb (c ∷ []) =
    Ensures-if (c == b'\\') (λ _. refused)
      λ _. Ensures-if (c == b'\'') (λ _. parsed {a = (sb, [])} (omega arith)) (λ _. refused)
string_loop-Ensures sb (c ∷ d ∷ s) =
    Ensures-if (c == b'\\')
      (λ _.
        Ensures-weaken (string_loop-Ensures (sb ++ unescape_byte d ∷ []) s) (λ _ h. omega arith))
      λ _.
        Ensures-if (c == b'\'') (λ _. parsed {a = (sb, d ∷ s)} (omega arith))
          (λ _. Ensures-weaken (string_loop-Ensures (sb ++ c ∷ []) (d ∷ s)) (λ _ h. omega arith))

pub parse_string-Ensures : (s : Text) → Ensures (λ (text, rest). Shorter s rest) (parse_string s)
unfolding parse_string
parse_string-Ensures s =
    Ensures-bind (expect-Ensures b'\'' s)
      λ rest h. Ensures-weaken (string_loop-Ensures [] rest) (λ _ h'. omega arith)

length-sign_span : (s : Text) → length (sign_span s).0 + length (sign_span s).1 ≡ length s
unfolding sign_span
length-sign_span [] = omega arith
length-sign_span (c ∷ s) = ground arith

pub parse_int-Ensures : (s : Text) → Ensures (λ (n, rest). IsInt n × Shorter s rest) (parse_int s)
unfolding parse_int
parse_int-Ensures s =
    let t = skip_space s in
    let (sign, unsigned) = sign_span t in
    let (number, rest) = span is_digit unsigned in
    found (sign ++ number) rest (
      omega (
        arith,
        length-skip_space s,
        length-sign_span t,
        length-span is_digit unsigned,
        length-append sign number,
      ))
  where
    parsed_int :
        (written rest : Text)
        → length rest < length s
        → (n : Option ℤ) → atoi written ≡ n
        → Ensures (λ (n, rest). IsInt n × Shorter s rest) (number_found written rest n)
    parsed_int written rest lt none e = refused
    parsed_int written rest lt (some n) e = parsed (atoi-IsInt written e, lt)

    found :
        (written rest : Text)
        → length written + length rest ≤ length s
        → Ensures (λ (n, rest). IsInt n × Shorter s rest) (number_at written rest)
    found [] rest le = refused
    found (c ∷ written) rest le =
        parsed_int (c ∷ written) rest (omega arith) (atoi (c ∷ written)) refl

balanced_loop-Ensures :
    (f depth : ℕ) (s : Text)
    → length s < f
    → Ensures (λ rest. length rest ≤ length s) (balanced_loop f depth s)
unfolding balanced_loop
balanced_loop-Ensures zero depth s h = absurd (omega arith)
balanced_loop-Ensures (suc f) depth [] h = refused
balanced_loop-Ensures (suc f) depth (c ∷ s) h =
    Ensures-if (c == b'\'')
      (λ _. Ensures-bind (parse_string-Ensures (c ∷ s)) λ (_, rest) lt.
        Ensures-weaken (balanced_loop-Ensures f depth rest (omega arith)) (λ _ le. omega arith))
      λ _.
        Ensures-if (c == b'(')
          (λ _.
            Ensures-weaken (balanced_loop-Ensures f (depth + 1) s (omega arith))
              (λ _ le. omega arith))
          λ _.
            Ensures-if (c == b')')
              (λ _.
                Ensures-if (depth - 1 == 0) (λ _. parsed {a = s} (omega arith))
                  (λ _.
                    Ensures-weaken (balanced_loop-Ensures f (depth - 1) s (omega arith))
                      (λ _ le. omega arith)))
              (λ _.
                Ensures-weaken (balanced_loop-Ensures f depth s (omega arith))
                  (λ _ le. omega arith))

pub skip_balanced-Ensures : (s : Text) → Ensures (Shorter s) (skip_balanced s)
unfolding skip_balanced
skip_balanced-Ensures s = Ensures-bind (expect-Ensures b'(' s) λ rest h.
    Ensures-weaken (balanced_loop-Ensures (suc (length rest)) 1 rest (omega arith))
      (λ _ le. omega arith)
