-- ===== src/Ch/Parse/Spelling.antt =====
-- The lexing functions on what `String` writes: names, quoted strings and numbers are read back.
use pggen.Prelude.{
  ℕ, suc, ◌≡◌, refl, ◌∙◌, ◌≢◌, inl, inr, Bool, true, false, not, [], ◌∷◌, ◌++◌, append_assoc,
  append-nil, some, arith, ◌==◌, ◌||◌, Bool-cases, All,
}
use pggen.Prelude.Int.{ℤ, pos, negsuc}
use pggen.Prelude.Decimal.{
  IsInt, is_digit, IsDigit, IsNumeral, numeral, itoa, itoa_ℕ, itoa_ℕ-IsNumeral, atoi, atoi-itoa,
  itoa_pos, itoa_negsuc,
}
use pggen.Prelude.Result.{ok}
use pggen.Prelude.Text.{Text}
use pggen.Ch.Types.{escape_quote, quote}
use pggen.Ch.Parse.Lexer.{
  expect, skip_space, is_blank, is_ident_byte, span, ident_found, parse_ident, string_loop,
  parse_string, sign_span, number_at, parse_int,
}
use pggen.Ch.Parse.Ensures.{IsName}

-- The text is at its end, or its first byte fails the test.
abbrev pub stops_at : (ℕ → Bool) → Text → Bool
stops_at p [] = true
stops_at p (c ∷ s) = not (p c)

pub span-append :
    (p : ℕ → Bool) (front rest : Text)
    → All (λ c. p c ≡ true) front
    → stops_at p rest ≡ true
    → span p (front ++ rest) ≡ (front, rest)
unfolding span
span-append p [] [] h e = refl
span-append p [] (c ∷ rest) h e = ground arith
span-append p (c ∷ front) rest (hc, h) e = rw (hc, span-append p front rest h e)

ident_byte_not_blank : (c : ℕ) → is_ident_byte c ≡ true → is_blank c ≡ false
unfolding is_ident_byte
ident_byte_not_blank c h = ground arith

pub skip_space-IsName :
    {name : Text} (rest : Text) → IsName name → skip_space (name ++ rest) ≡ name ++ rest
skip_space-IsName {name} rest named = go name named.nonempty named.ident_bytes
  where
    go :
        (n : Text)
        → n ≢ []
        → All (λ c. is_ident_byte c ≡ true) n
        → skip_space (n ++ rest) ≡ n ++ rest
    go [] ne h = absurd (ne refl)
    go (c ∷ n) ne h = unfold skip_space in rw (ident_byte_not_blank c h.0)

pub parse_ident-IsName :
    (s : Text) {name : Text} (rest : Text)
    → IsName name
    → skip_space s ≡ name ++ rest
    → stops_at is_ident_byte rest ≡ true
    → parse_ident s ≡ ok (name, rest)
unfolding parse_ident
parse_ident-IsName s {name} rest named e stop =
    rw (e, span-append is_ident_byte name rest named.ident_bytes stop) (go name named.nonempty)
  where
    go : (n : Text) → n ≢ [] → ident_found (n, rest) ≡ ok (n, rest)
    go [] ne = absurd (ne refl)
    go (c ∷ n) ne = refl

string_loop_plain :
    (sb s : Text) (c : ℕ)
    → c ≢ b'\\'
    → c ≢ b'\''
    → string_loop sb (c ∷ s) ≡ string_loop (sb ++ c ∷ []) s
unfolding string_loop
string_loop_plain sb [] c n m = ground arith
string_loop_plain sb (d ∷ s) c n m = ground arith

string_loop_escape :
    (sb s : Text) (c : ℕ)
    → (c == b'\\' || c == b'\'') ≡ true
    → string_loop sb (b'\\' ∷ c ∷ s) ≡ string_loop (sb ++ c ∷ []) s
unfolding string_loop
string_loop_escape sb s c h = ground arith

string_loop_close : (sb rest : Text) → string_loop sb (b'\'' ∷ rest) ≡ ok (sb, rest)
unfolding string_loop
string_loop_close sb [] = refl
string_loop_close sb (c ∷ rest) = refl

string_loop-escape_quote :
    (s sb rest : Text) → string_loop sb (escape_quote s ++ b'\'' ∷ rest) ≡ ok (sb ++ s, rest)
unfolding escape_quote
string_loop-escape_quote [] sb rest = string_loop_close sb rest ∙ rw append-nil
string_loop-escape_quote (c ∷ s) sb rest = elim (Bool-cases (c == b'\\' || c == b'\'')) [
  | inl special ↦ rw special (
      string_loop_escape sb _ c special
      ∙ string_loop-escape_quote s (sb ++ c ∷ []) rest
      ∙ rw append_assoc)
  | inr plain ↦ rw plain (
      string_loop_plain sb _ c (ground arith) (ground arith)
      ∙ string_loop-escape_quote s (sb ++ c ∷ []) rest
      ∙ rw append_assoc)
]

-- A quoted text is read back, whatever bytes it holds, with spaces in front of it.
pub parse_string-quote :
    (s text rest : Text) → skip_space s ≡ quote text ++ rest → parse_string s ≡ ok (text, rest)
unfolding parse_string expect quote
parse_string-quote s text rest e = rw e (rw append_assoc (string_loop-escape_quote text [] rest))

digit_not_blank : (c : ℕ) → IsDigit c → (is_blank c ≡ false) × ((c == b'-' || c == b'+') ≡ false)
digit_not_blank c h = (ground arith, ground arith)

IsNumeral-digits : {s : Text} → IsNumeral s → All (λ c. is_digit c ≡ true) s
IsNumeral-digits (numeral {c} {s} d h) = (ground arith, go s h)
  where
    go : (t : Text) → All IsDigit t → All (λ c. is_digit c ≡ true) t
    go [] h = tt
    go (c ∷ t) (hc, h) = (ground arith, go t h)

number_at-numeral :
    (sign : Text) {s : Text} (rest : Text) {n : ℤ}
    → IsNumeral s
    → atoi (sign ++ s) ≡ some n
    → number_at (sign ++ s) rest ≡ ok (n, rest)
number_at-numeral [] rest (numeral d h) e = rw e
number_at-numeral (c ∷ sign) rest (numeral d h) e = rw e

skip_space-numeral :
    {s : Text} (rest : Text)
    → IsNumeral s
    → (skip_space (s ++ rest) ≡ s ++ rest) × (sign_span (s ++ rest) ≡ ([], s ++ rest))
unfolding skip_space sign_span
skip_space-numeral rest (numeral {c} {s} d h) =
    let (blank, sign) = digit_not_blank c d in (rw blank, rw sign)

-- A number is read back.
pub parse_int-itoa :
    (s : Text) (n : ℤ) (rest : Text)
    → IsInt n
    → skip_space s ≡ itoa n ++ rest
    → stops_at is_digit rest ≡ true
    → parse_int s ≡ ok (n, rest)
unfolding parse_int
parse_int-itoa s (pos n) rest h e stop =
    let num = itoa_ℕ-IsNumeral n in
    let e' = rw itoa_pos at e in
    let back = rw itoa_pos at (atoi-itoa (pos n) h) in
    rw
      (
        e',
        (skip_space-numeral rest num).1,
        span-append is_digit (itoa_ℕ n) rest (IsNumeral-digits num) stop,
      )
      (number_at-numeral [] rest num back)
parse_int-itoa s (negsuc n) rest h e stop =
    let num = itoa_ℕ-IsNumeral (suc n) in
    let e' = rw itoa_negsuc at e in
    let back = rw itoa_negsuc at (atoi-itoa (negsuc n) h) in
    rw
      (
        e',
        minus (itoa_ℕ (suc n) ++ rest),
        span-append is_digit (itoa_ℕ (suc n)) rest (IsNumeral-digits num) stop,
      )
      (number_at-numeral (b'-' ∷ []) rest num back)
  where
    minus : (t : Text) → sign_span (b'-' ∷ t) ≡ (b'-' ∷ [], t)
    minus t = unfold sign_span in refl

-- Spaces in front of a number are skipped, and the print of a number has none.
pub skip_space-itoa : (n : ℤ) (rest : Text) → skip_space (itoa n ++ rest) ≡ itoa n ++ rest
skip_space-itoa (pos n) rest = rw itoa_pos (skip_space-numeral rest (itoa_ℕ-IsNumeral n)).0
skip_space-itoa (negsuc n) rest = rw itoa_negsuc (unfold skip_space in refl)
