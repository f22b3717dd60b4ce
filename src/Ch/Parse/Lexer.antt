-- ===== src/Ch/Parse/Lexer.antt =====
-- internal/ch/parse.go, the part that reads bytes: spaces, single bytes, names, strings, numbers,
-- and balanced parentheses. The parser's `pos` is the text from there on; a function returns the
-- text that it leaves, and an error carries the text that was unread when it was made.
use pggen.Prelude.{
  ℕ, zero, suc, ◌+◌, ◌-◌, Bool, true, false, ◌&&◌, ◌||◌, [], ◌∷◌, ◌++◌, Option, none, some, ◌==◌,
  leb, if◌then◌else◌, length, take,
}
use pggen.Prelude.Int.{ℤ}
use pggen.Prelude.Decimal.{atoi, is_digit}
use pggen.Prelude.Result.{Result, ok, err, ◌>>=◌}
use pggen.Prelude.Text.{Text}

pub data Reason : Type 0 where
  expected_byte : ℕ → Reason
  expected_type_name expected_number : Reason
  trailing_backslash unterminated_string unbalanced : Reason
  bad_number trailing_text : Text → Reason
  enum_out_of_range : ℕ → ℤ → Text → Reason

-- `errf`, with the unread text; `out_of_fuel` has no counterpart in the code, and `Parse` never
-- returns it.
pub data ParseError : Type 0 where
  failed : Reason → Text → ParseError
  out_of_fuel : ParseError

abbrev pub Parser {ℓ} : Type ℓ → Type ℓ
Parser A = Text → Result ParseError (A × Text)

abbrev pub fail {ℓ} : {A : Type ℓ} → Reason → Parser A
fail why rest = err (failed why rest)

-- `skipSpace()`.
abbrev pub is_blank : ℕ → Bool
is_blank c = c == b' ' || c == b'\t' || c == b'\n'

unfoldable pub skip_space : Text → Text
skip_space [] = []
skip_space (c ∷ s) = let rest = skip_space s in if is_blank c then rest else c ∷ s

-- `accept(c)` after its `peek`: whether the next byte is `c`, which then is read.
unfoldable pub accept_at : ℕ → Text → Bool × Text
accept_at c [] = (false, [])
accept_at c (d ∷ s) = if d == c then (true, s) else (false, d ∷ s)

unfoldable pub accept : ℕ → Text → Bool × Text
unfolding accept_at skip_space
accept c s = accept_at c (skip_space s)

-- `expect(c)`: the text behind `c`.
unfoldable pub expect : ℕ → Text → Result ParseError Text
unfolding accept
expect c s =
    let (found, rest) = accept c s in if found then ok rest else err (failed (expected_byte c) rest)

-- `isIdentByte(c)`.
unfoldable pub is_ident_byte : ℕ → Bool
is_ident_byte c =
    c == b'_'
    || (leb b'a' c && leb c b'z')
    || (leb b'A' c && leb c b'Z')
    || (leb b'0' c && leb c b'9')

-- The longest front of a text whose bytes pass a test, and the rest: a loop `for p.pos < len(p.src) && ...`.
unfoldable pub span : (ℕ → Bool) → Text → Text × Text
span p [] = ([], [])
span p (c ∷ s) = let (front, rest) = span p s in if p c then (c ∷ front, rest) else ([], c ∷ s)

-- `parseIdent()`.
abbrev pub ident_found : Text × Text → Result ParseError (Text × Text)
ident_found ([], rest) = fail expected_type_name rest
ident_found (c ∷ name, rest) = ok (c ∷ name, rest)

unfoldable pub parse_ident : Parser Text
unfolding span skip_space is_ident_byte
parse_ident s = ident_found (span is_ident_byte (skip_space s))

-- The byte that `\d` stands for.
unfoldable pub unescape_byte : ℕ → ℕ
unescape_byte d =
    if d == b'n'
    then b'\n'
    else if d == b't'
    then b'\t'
    else if d == b'r'
    then b'\r'
    else if d == b'0'
    then 0
    else d

-- The loop of `parseString`, over the builder and the unread text.
unfoldable pub string_loop : Text → Parser Text
unfolding unescape_byte
string_loop sb [] = fail unterminated_string []
string_loop sb (c ∷ []) =
    if c == b'\\'
    then fail trailing_backslash (c ∷ [])
    else if c == b'\''
    then ok (sb, [])
    else fail unterminated_string []
string_loop sb (c ∷ d ∷ s) =
    let escaped = string_loop (sb ++ unescape_byte d ∷ []) s in
    let plain = string_loop (sb ++ c ∷ []) (d ∷ s) in
    if c == b'\\' then escaped else if c == b'\'' then ok (sb, d ∷ s) else plain

-- `parseString()`.
unfoldable pub parse_string : Parser Text
unfolding expect string_loop
parse_string s = expect b'\'' s >>= λ rest. string_loop [] rest

-- The sign that `parseInt` reads, if there is one.
unfoldable pub sign_span : Text → Text × Text
sign_span [] = ([], [])
sign_span (c ∷ s) = if c == b'-' || c == b'+' then (c ∷ [], s) else ([], c ∷ s)

abbrev pub number_found : Text → Text → Option ℤ → Result ParseError (ℤ × Text)
number_found written rest none = fail (bad_number written) rest
number_found written rest (some n) = ok (n, rest)

abbrev pub number_at : Text → Text → Result ParseError (ℤ × Text)
number_at [] rest = fail expected_number rest
number_at (c ∷ written) rest = number_found (c ∷ written) rest (atoi (c ∷ written))

-- `parseInt()`.
unfoldable pub parse_int : Parser ℤ
unfolding skip_space sign_span span
parse_int s =
    let (sign, unsigned) = sign_span (skip_space s) in
    let (number, rest) = span is_digit unsigned in number_at (sign ++ number) rest

-- The loop of `skipBalanced`, `depth` parentheses deep. A string takes any number of bytes, so the
-- rounds are on fuel.
unfoldable pub balanced_loop : ℕ → ℕ → Text → Result ParseError Text
unfolding parse_string
balanced_loop zero depth s = err out_of_fuel
balanced_loop (suc fuel) depth [] = err (failed unbalanced [])
balanced_loop (suc fuel) depth (c ∷ s) =
    let after_string = parse_string (c ∷ s) >>= λ (_, rest). balanced_loop fuel depth rest in
    let opened = balanced_loop fuel (depth + 1) s in
    let closed = balanced_loop fuel (depth - 1) s in
    let skipped = balanced_loop fuel depth s in
    if c == b'\''
    then after_string
    else if c == b'('
    then opened
    else if c == b')'
    then (if depth - 1 == 0 then ok s else closed)
    else skipped

-- `skipBalanced()`.
unfoldable pub skip_balanced : Text → Result ParseError Text
unfolding expect balanced_loop
skip_balanced s = expect b'(' s >>= λ rest. balanced_loop (suc (length rest)) 1 rest

-- `p.src[from:p.pos]`, of the text from `from` on and the text from `p.pos` on.
abbrev pub slice : Text → Text → Text
slice from rest = take (length from - length rest) from
