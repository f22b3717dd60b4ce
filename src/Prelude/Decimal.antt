-- ===== src/Prelude/Decimal.antt =====
-- `strconv.Itoa` and `strconv.Atoi` on a 64-bit int.
use Prim.Native.Nat.{ℕ, zero, suc, ◌+◌, ◌-◌, ◌*◌, ◌/◌, ◌%◌, ◌^◌, ◌≤◌, ◌<◌}
use mathlib.Core.Path.{◌≡◌, refl, ◌∙◌}
use mathlib.Core.Logic.{inl, inr}
use mathlib.Core.Bool.{Bool, ◌&&◌}
use mathlib.Core.Option.{Option, none, some}
use mathlib.Core.List.{[], ◌∷◌}
use native.Mathlib.Omega.{arith}
use pggen.Prelude.Tests.{ltb, leb, ◌==◌, if◌then◌else◌, Bool-cases}
use pggen.Prelude.Lists.{All}
use pggen.Prelude.Int.{ℤ, pos, negsuc, pos_part, neg_part}
use pggen.Prelude.Text.{Text}

abbrev pub is_digit : ℕ → Bool
is_digit c = leb b'0' c && leb c b'9'

abbrev pub IsDigit : ℕ → Type 0
IsDigit c = (b'0' ≤ c) × (c ≤ b'9')

-- The digits of `n` in front of `out`. A unit of fuel is spent for each digit, and `n + 1` is enough.
unfoldable pub digits : ℕ → ℕ → Text → Text
digits zero n out = out
digits (suc f) n out =
    let more = digits f (n / 10) ((b'0' + n % 10) ∷ out) in
    if ltb n 10 then (b'0' + n) ∷ out else more

unfoldable pub itoa_ℕ : ℕ → Text
unfolding digits
itoa_ℕ n = digits (suc n) n []

unfoldable pub itoa : ℤ → Text
unfolding itoa_ℕ
itoa (pos n) = itoa_ℕ n
itoa (negsuc n) = b'-' ∷ itoa_ℕ (suc n)

-- The number that digits spell behind `n`; `none` if one of them is no digit.
unfoldable pub value : ℕ → Text → Option ℕ
value n [] = some n
value n (c ∷ s) = if is_digit c then value (n * 10 + (c - b'0')) s else none

abbrev pub max_int : ℕ
max_int = 2 ^ 63 - 1

abbrev positive : Option ℕ → Option ℤ
positive none = none
positive (some n) = if leb n max_int then some (pos n) else none

abbrev negate : ℕ → ℤ
negate zero = pos 0
negate (suc n) = negsuc n

abbrev negative : Option ℕ → Option ℤ
negative none = none
negative (some n) = if leb n (max_int + 1) then some (negate n) else none

abbrev unsigned : Text → Option ℕ
unsigned [] = none
unsigned (c ∷ s) = value 0 (c ∷ s)

unfoldable pub atoi : Text → Option ℤ
unfolding value
atoi [] = none
atoi (c ∷ s) =
    if c == b'-'
    then negative (unsigned s)
    else if c == b'+'
    then positive (unsigned s)
    else positive (unsigned (c ∷ s))

-- A value of the type int.
abbrev pub IsInt : ℤ → Type 0
IsInt z = (pos_part z ≤ max_int) × (neg_part z ≤ max_int + 1)

digits-All : (f n : ℕ) (out : Text) → All IsDigit out → All IsDigit (digits f n out)
unfolding digits
digits-All zero n out h = h
digits-All (suc f) n out h = ground (arith, digits-All f (n / 10) ((b'0' + n % 10) ∷ out))

value_last : (n : ℕ) (out : Text) → value (n / 10) ((b'0' + n % 10) ∷ out) ≡ value n out
unfolding value
value_last n out = let e : n / 10 * 10 + (b'0' + n % 10 - b'0') ≡ n = omega arith in ground arith

value-digits : (f n : ℕ) (out : Text) → n < f → value 0 (digits f n out) ≡ value n out
unfolding digits
value-digits zero n out h = absurd (omega arith)
value-digits (suc f) n out h =
    ground (arith, value_last n out, value-digits f (n / 10) ((b'0' + n % 10) ∷ out))

-- The print of a number: a digit, and digits.
pub data IsNumeral : Text → Type 0 where
  numeral : {c : ℕ} {s : Text} → IsDigit c → All IsDigit s → IsNumeral (c ∷ s)

digits-IsNumeral :
    (f n c : ℕ) (out : Text) → IsDigit c → All IsDigit out → IsNumeral (digits f n (c ∷ out))
unfolding digits
digits-IsNumeral zero n c out d h = numeral d h
digits-IsNumeral (suc f) n c out d h = elim (Bool-cases (ltb n 10)) [
  | inl last ↦ rw last (numeral (ground arith) (d, h))
  | inr more ↦ rw more (digits-IsNumeral f (n / 10) (b'0' + n % 10) (c ∷ out) (omega arith) (d, h))
]

pub itoa_ℕ-IsNumeral : (n : ℕ) → IsNumeral (itoa_ℕ n)
unfolding itoa_ℕ digits
itoa_ℕ-IsNumeral n = elim (Bool-cases (ltb n 10)) [
  | inl last ↦ rw last (numeral (ground arith) tt)
  | inr more ↦ rw more (digits-IsNumeral n (n / 10) (b'0' + n % 10) [] (omega arith) tt)
]

unsigned-itoa_ℕ : (n : ℕ) → unsigned (itoa_ℕ n) ≡ some n
unsigned-itoa_ℕ n =
    go (itoa_ℕ n) (itoa_ℕ-IsNumeral n) (unfold itoa_ℕ in value-digits (suc n) n [] (omega arith))
  where
    go : (s : Text) → IsNumeral s → value 0 s ≡ value n [] → unsigned s ≡ some n
    go s (numeral d h) e = e ∙ unfold value in refl

atoi-unsigned : (s : Text) → IsNumeral s → atoi s ≡ positive (unsigned s)
unfolding atoi
atoi-unsigned s (numeral d h) = ground arith

-- Every int is read back from its print.
pub atoi-itoa : (z : ℤ) → IsInt z → atoi (itoa z) ≡ some z
unfolding itoa
atoi-itoa (pos n) h = rw (atoi-unsigned _ (itoa_ℕ-IsNumeral n), unsigned-itoa_ℕ n) (ground arith)
atoi-itoa (negsuc n) h = unfold atoi in rw (unsigned-itoa_ℕ (suc n)) (ground arith)

positive-IsInt : (o : Option ℕ) {z : ℤ} → positive o ≡ some z → IsInt z
positive-IsInt none e = cc
positive-IsInt (some n) e = ground arith

negative-IsInt : (o : Option ℕ) {z : ℤ} → negative o ≡ some z → IsInt z
negative-IsInt none e = cc
negative-IsInt (some zero) e = ground arith
negative-IsInt (some (suc n)) e = ground arith

-- What is read is an int.
pub atoi-IsInt : (s : Text) {z : ℤ} → atoi s ≡ some z → IsInt z
unfolding atoi
atoi-IsInt [] e = cc
atoi-IsInt (c ∷ s) e = elim (Bool-cases (c == b'-')) [
  | inl minus ↦ negative-IsInt (unsigned s) (rw minus at e)
  | inr not_minus ↦ elim (Bool-cases (c == b'+')) [
    | inl plus ↦ positive-IsInt (unsigned s) (rw (not_minus, plus) at e)
    | inr not_plus ↦ positive-IsInt (unsigned (c ∷ s)) (rw (not_minus, not_plus) at e)
  ]
]

pub itoa_pos : (n : ℕ) → itoa (pos n) ≡ itoa_ℕ n
unfolding itoa
itoa_pos n = refl

pub itoa_negsuc : (n : ℕ) → itoa (negsuc n) ≡ b'-' ∷ itoa_ℕ (suc n)
unfolding itoa
itoa_negsuc n = refl
