-- ===== src/Ch/Parse/Arguments.antt =====
-- What the parsers of arguments in parentheses return, and that they come to an end.
use pggen.Prelude.{
  ℕ, zero, suc, ◌≤◌, ◌<◌, ◌≡◌, ◌≢◌, ◌⊎◌, inl, inr, Bool, true, false, List, [], arith, length, All,
}
use pggen.Prelude.Int.{ℤ, pos}
use pggen.Prelude.Decimal.{IsInt}
use pggen.Prelude.Result.{Result}
use pggen.Prelude.Text.{Text}
use pggen.Ch.Types.{ChType, decimal}
use pggen.Ch.Parse.Lexer.{ParseError, Parser, accept, parse_int, parse_string}
use pggen.Ch.Parse.Ensures.{
  Ensures, parsed, refused, Ensures-bind, Ensures-weaken, Ensures-if, Shorter, length-accept,
  expect-Ensures, parse_string-Ensures, parse_int-Ensures, skip_balanced-Ensures,
}
use pggen.Ch.Parse.Canonical.{IsCanonical, FitsEnum, IsItem}
use pggen.Ch.Parse.{
  paren, decimal_args, zone_found, date_time64_args, enum_fits, enum_item, enum_loop, enum_args,
  wrap, unsupported_args,
}

-- The run reads something off the front of `s`, and `P` holds of its value.
abbrev pub Reads {ℓ} : {A : Type ℓ} → (A → Type 0) → Text → Result ParseError (A × Text) → Type ℓ
Reads P s r = Ensures (λ (a, rest). P a × Shorter s rest) r

module _ {ℓ} {A : Type ℓ} (P : A → Type 0) where
  pub paren-Reads :
      {argument : Parser A} (s : Text)
      → ((t : Text) → length t < length s → Reads P t (argument t))
      → Reads P s (paren argument s)
  unfolding paren
  paren-Reads s reads = Ensures-bind (expect-Ensures b'(' s) λ inner h.
      Ensures-bind (reads inner h) λ (a, after) (p, h').
        Ensures-bind (expect-Ensures b')' after) λ rest h''. parsed (p, omega arith)

  pub wrap-Reads :
      (make : A → ChType) {r : Result ParseError (A × Text)} (s : Text)
      → ((a : A) → P a → IsCanonical (make a))
      → Reads P s r
      → Reads IsCanonical s (wrap make r)
  wrap-Reads make s k reads = Ensures-bind reads λ (a, rest) (p, h). parsed (k a p, h)

pub decimal_args-Reads : (s : Text) → Reads IsCanonical s (decimal_args s)
unfolding decimal_args
decimal_args-Reads s = Ensures-bind (expect-Ensures b'(' s) λ inner h₁.
    Ensures-bind (parse_int-Ensures inner) λ (p, after) (ip, h₂).
      Ensures-bind (expect-Ensures b',' after) λ second h₃.
        Ensures-bind (parse_int-Ensures second) λ (c, last) (ic, h₄).
          Ensures-bind (expect-Ensures b')' last)
            λ rest h₅. parsed (IsCanonical.decimal ip ic, omega arith)

zone_found-Ensures :
    (s : Text) (found : Bool × Text)
    → length found.1 < length s
    → Ensures (λ (zone, rest). Shorter s rest) (zone_found found)
zone_found-Ensures s (true, t) h = Ensures-weaken (parse_string-Ensures t) (λ _ h'. omega arith)
zone_found-Ensures s (false, t) h = parsed h

pub date_time64_args-Reads : (s : Text) → Reads IsCanonical s (date_time64_args s)
unfolding date_time64_args
date_time64_args-Reads s = Ensures-bind (expect-Ensures b'(' s) λ inner h₁.
    Ensures-bind (parse_int-Ensures inner) λ (p, after) (ip, h₂).
      Ensures-bind
        (zone_found-Ensures s (accept b',' after) (omega (arith, (length-accept b',' after).0)))
        λ (zone, last) h₃.
          Ensures-bind (expect-Ensures b')' last)
            λ rest h₄. parsed (IsCanonical.date_time64 zone ip, omega arith)

enum_fits-FitsEnum :
    (bits : ℕ) (v : ℤ) → (bits ≡ 8) ⊎ (bits ≡ 16) → enum_fits bits v ≡ true → FitsEnum bits v
unfolding enum_fits
enum_fits-FitsEnum bits v (inl b) h = inl (b, ground arith, ground arith)
enum_fits-FitsEnum bits v (inr b) h = inr (b, ground arith, ground arith)

enum_item-Reads :
    (bits : ℕ) (s : Text) → (bits ≡ 8) ⊎ (bits ≡ 16) → Reads (IsItem bits) s (enum_item bits s)
unfolding enum_item
enum_item-Reads bits s b = Ensures-bind (parse_string-Ensures s) λ (label, after) h₁.
    Ensures-bind (expect-Ensures b'=' after) λ value h₂.
      Ensures-bind (parse_int-Ensures value) λ (v, rest) (iv, h₃).
        Ensures-if (enum_fits bits v)
          (λ fits. parsed ((iv, enum_fits-FitsEnum bits v b fits), omega arith)) (λ _. refused)

abbrev AreItems : ℕ → List (Text × ℤ) → Type 0
AreItems bits items = (items ≢ []) × All (IsItem bits) items

enum_loop-Reads :
    (f bits : ℕ) (s : Text)
    → (bits ≡ 8) ⊎ (bits ≡ 16)
    → length s < f
    → Reads (AreItems bits) s (enum_loop f bits s)
unfolding enum_loop
enum_loop-Reads zero bits s b h = absurd (omega arith)
enum_loop-Reads (suc f) bits s b h =
    Ensures-bind (enum_item-Reads bits s b) λ (item, after) (p, h₁).
      let (le, lt) = length-accept b',' after in
      Ensures-if (accept b',' after).0
        (λ more.
          Ensures-bind (enum_loop-Reads f bits (accept b',' after).1 b (omega (arith, lt more)))
            λ (items, rest) (ps, h₂). parsed ((cc, (p, ps.1)), omega arith))
        (λ _. parsed ((cc, (p, tt)), omega arith))

pub enum_args-Reads :
    (f bits : ℕ) (s : Text)
    → (bits ≡ 8) ⊎ (bits ≡ 16)
    → length s < f
    → Reads IsCanonical s (enum_args f bits s)
unfolding enum_args
enum_args-Reads f bits s b h = Ensures-bind (expect-Ensures b'(' s) λ inner h₁.
    Ensures-bind (enum_loop-Reads f bits inner b (omega arith)) λ (items, after) (p, h₂).
      Ensures-bind (expect-Ensures b')' after)
        λ rest h₃. parsed (IsCanonical.enum p.0 p.1, omega arith)

pub unsupported_args-Reads : (start s : Text) → Reads IsCanonical s (unsupported_args start s)
unfolding unsupported_args
unsupported_args-Reads start s =
    Ensures-bind (skip_balanced-Ensures s) λ rest h. parsed (IsCanonical.unsupported _, h)

pub IsInt-Reads : (s : Text) → Reads IsInt s (paren parse_int s)
IsInt-Reads s = paren-Reads IsInt s λ t _. parse_int-Ensures t

pub string-Reads : (s : Text) → Reads (λ _. Unit {0}) s (paren parse_string s)
string-Reads s =
    paren-Reads (λ _. Unit) s λ t _. Ensures-weaken (parse_string-Ensures t) λ _ h. (tt, h)

pub fixed_decimal-Reads :
    (p : ℕ) (s : Text) → p ≤ 76 → Reads IsCanonical s (wrap (decimal (pos p)) (paren parse_int s))
fixed_decimal-Reads p s h =
    wrap-Reads IsInt (decimal (pos p)) s (λ _. IsCanonical.decimal (omega arith)) (IsInt-Reads s)
