-- ===== src/Scanner.antt =====
-- internal/scanner/scanner.go and internal/token/token.go: the tokens of a query file. A scanner's
-- state is the text from its current character on, `ch`, which `eof` stands for where the text ends;
-- `peek` is the character behind it. The reports of `next()` on single characters, a NUL or a byte order
-- mark inside the file, are left out.
pub mod Cover
pub mod Progress
pub mod Tokens
pub mod Literal
pub mod Positions
mod Tests
use pggen.Prelude.{
  ℕ, zero, suc, ◌+◌, Bool, true, false, not, ◌&&◌, ◌||◌, List, [], ◌∷◌, ◌++◌, Option, none, some,
  ◌==◌, ==_iff, ◌≡◌, refl, sym, ap, ◌∙◌, leb, if◌then◌else◌, length, take, drop, get_elem?,
}
use pggen.Prelude.Text.{Text, byte_length, cut_prefix}

pub data Token : Type 0 where
  illegal eof line_comment block_comment string quoted_ident query_fragment semicolon : Token

abbrev pub Body : Type 0
Body = Option (Text × Text)

-- A token's value as an int, and the test `==` on tokens.
abbrev pub number : Token → ℕ
number illegal = 0
number eof = 1
number line_comment = 2
number block_comment = 3
number string = 4
number quoted_ident = 5
number query_fragment = 6
number semicolon = 7

abbrev pub same_token : Token → Token → Bool
same_token a b = number a == number b

abbrev token_of : ℕ → Token
token_of n =
    let tokens =
      illegal ∷ eof ∷ line_comment ∷ block_comment ∷ string ∷ quoted_ident ∷ query_fragment
      ∷ semicolon ∷ [] in
    elim (get_elem? tokens n) [ none ↦ semicolon | some t ↦ t ]

token_of-number : (t : Token) → token_of (number t) ≡ t
token_of-number illegal = refl
token_of-number eof = refl
token_of-number line_comment = refl
token_of-number block_comment = refl
token_of-number string = refl
token_of-number quoted_ident = refl
token_of-number query_fragment = refl
token_of-number semicolon = refl

pub same_token-true : (a b : Token) → same_token a b ≡ true → a ≡ b
same_token-true a b e =
    sym (token_of-number a) ∙ ap token_of ((==_iff (number a) (number b)).0 e) ∙ token_of-number b

-- A body that begins with one more character, or with two.
abbrev pub prepend : ℕ → Body → Body
prepend c none = none
prepend c (some (body, rest)) = some (c ∷ body, rest)

abbrev pub push : ℕ → Text × Text → Text × Text
push c (body, rest) = (c ∷ body, rest)

-- `peek()`.
abbrev pub peek : Text → ℕ
peek [] = 0
peek (c ∷ s) = c

-- `isSpace(ch)` and `isDecimal(ch)`.
abbrev pub is_scan_space : ℕ → Bool
is_scan_space c = c == b' ' || c == b'\t' || c == b'\n' || c == b'\r'

abbrev pub is_decimal : ℕ → Bool
is_decimal c = leb b'0' c && leb c b'9'

-- `skipWhitespace()`: what is skipped, and what is left.
unfoldable pub skip_whitespace : Text → Text × Text
skip_whitespace [] = ([], [])
skip_whitespace (c ∷ s) =
    let (blank, rest) = skip_whitespace s in
    if is_scan_space c then (c ∷ blank, rest) else ([], c ∷ s)

-- `scanLineComment()`: the comment, without the newline behind it.
unfoldable pub line_comment_body : Text → Text × Text
line_comment_body [] = ([], [])
line_comment_body (c ∷ s) =
    let (body, rest) = line_comment_body s in if c == b'\n' then ([], c ∷ s) else (c ∷ body, rest)

-- The loop of `scanBlockComment()`, behind the opening two characters; `none` where the text ends in
-- the comment.
unfoldable pub block_comment_body : ℕ → Text → Body
block_comment_body zero s = some ([], s)
block_comment_body (suc depth) [] = none
block_comment_body (suc depth) (c ∷ []) = none
block_comment_body (suc depth) (c ∷ d ∷ s) =
    let closed = block_comment_body depth s in
    let opened = block_comment_body (suc (suc depth)) s in
    let inside = block_comment_body (suc depth) (d ∷ s) in
    if c == b'*' && d == b'/'
    then prepend c (prepend d closed)
    else if c == b'/' && d == b'*'
    then prepend c (prepend d opened)
    else prepend c inside

-- The loops of `scanSingleQuoteString()` and `scanDoubleQuoteString()`, behind the opening quote; `none`
-- where the text ends or has a NUL in the literal.
unfoldable pub quoted_body : ℕ → Text → Body
quoted_body quote [] = none
quoted_body quote (c ∷ []) = if c == 0 then none else if c == quote then some (c ∷ [], []) else none
quoted_body quote (c ∷ d ∷ s) =
    let doubled = quoted_body quote s in
    let inside = quoted_body quote (d ∷ s) in
    if c == 0
    then none
    else if c == quote
    then (if d == quote then prepend c (prepend d doubled) else some (c ∷ [], d ∷ s))
    else prepend c inside

-- `bytes.Index(s, sep)`, with the text in front of the separator; `none` for -1.
unfoldable pub index_of : Text → Text → Option Text
unfolding cut_prefix
index_of [] sep = elim (cut_prefix [] sep) [ none ↦ none | some _ ↦ some [] ]
index_of (c ∷ s) sep = elim (cut_prefix (c ∷ s) sep) [
  | some _ ↦ some []
  | none ↦ elim (index_of s sep) [ none ↦ none | some before ↦ some (c ∷ before) ]
]

-- A token, the characters it was read from, its literal, and the text behind it. Nothing is read
-- behind an illegal token.
pub data Scanned : Type 0 where
  token : Token → Text → Text → Text → Scanned
  ended : Token → Scanned

abbrev pub literal_token : Token → Text → Body → Scanned
literal_token tok opening none = ended illegal
literal_token tok opening (some (body, rest)) = token tok (opening ++ body) (opening ++ body) rest

abbrev pub fragment_token : Text × Text → Scanned
fragment_token (body, rest) = token query_fragment body body rest

abbrev pub comment_token : Text × Text → Scanned
comment_token (body, rest) = token line_comment body body rest

-- `unicode.IsLetter`, of the characters that are not ASCII.
module _ (is_unicode_letter : ℕ → Bool) where
  -- `isLetter(ch)`.
  abbrev pub is_letter : ℕ → Bool
  is_letter c =
      (leb b'a' c && leb c b'z')
      || (leb b'A' c && leb c b'Z')
      || c == b'_'
      || (leb 0x80 c && is_unicode_letter c)

  abbrev pub is_word : ℕ → Bool
  is_word c = is_letter c || is_decimal c

  -- The loop of `scanDollarQuoteString()` over the opening tag, behind its first `$`; `none` for a tag
  -- that is not closed or holds another character.
  unfoldable pub tag_body : Text → Body
  tag_body [] = none
  tag_body (c ∷ s) =
      let inside = tag_body s in
      if c == b'$' then some (c ∷ [], s) else if not (is_word c) then none else prepend c inside

  -- The two loops behind the tag. The code takes as many steps as the text up to the closing tag, and
  -- the tag, have bytes; a step takes one character, of one byte or of more.
  unfoldable pub dollar_contents : Text → Text → Body
  unfolding index_of
  dollar_contents tag s = elim (index_of s tag) [
    | none ↦ none
    | some before ↦
        let steps = byte_length before + byte_length tag in some (take steps s, drop steps s)
  ]

  -- The string behind its tag, with the tag in front of it; `c` is the first dollar sign.
  abbrev pub dollar_string : ℕ → Body → Body
  dollar_string c none = none
  dollar_string c (some (tag, s)) =
      let tag' = c ∷ tag in
      elim (dollar_contents tag' s) [ none ↦ none | some (body, rest) ↦ some (tag' ++ body, rest) ]

  -- The loop of `scanQueryFragment()`. `prev` is `prevCh`; the flag is whether the inner loop over an
  -- identifier with a `$` is running.
  unfoldable pub fragment_body : Bool → ℕ → Text → Text × Text
  fragment_body in_identifier prev [] = ([], [])
  fragment_body in_identifier prev (c ∷ s) =
      let identifier = push c (fragment_body true c s) in
      let next = push c (fragment_body false c s) in
      let stop : Text × Text = ([], c ∷ s) in
      if in_identifier && (is_word c || c == b'$')
      then identifier
      else if c == 0
          || c == b';'
          || (c == b'-' && peek s == b'-')
          || (c == b'/' && peek s == b'*')
          || c == b'\''
          || c == b'"'
      then stop
      else if c == b'$'
      then (if is_word prev then identifier else stop)
      else next

  -- The switch of `Scan()`, behind the blanks.
  unfoldable pub scan_token : Text → Scanned
  unfolding line_comment_body block_comment_body quoted_body tag_body dollar_contents fragment_body
  scan_token [] = ended eof
  scan_token (c ∷ s) =
      if c == b'-'
      then (if peek s == b'-'
          then comment_token (line_comment_body (c ∷ s))
          else fragment_token (fragment_body false 0 (c ∷ s)))
      else if c == b'/'
      then (if peek s == b'*'
          then literal_token block_comment (c ∷ peek s ∷ []) (block_comment_body 1 (drop 1 s))
          else fragment_token (fragment_body false 0 (c ∷ s)))
      else if c == b'\''
      then literal_token string (c ∷ []) (quoted_body c s)
      else if c == b'$'
      then literal_token string [] (dollar_string c (tag_body s))
      else if c == b'"'
      then literal_token quoted_ident (c ∷ []) (quoted_body c s)
      else if c == b';'
      then token semicolon (c ∷ []) [] s
      else fragment_token (fragment_body false 0 (c ∷ s))

  -- `Scan()`: the blanks in front of the token, and the token.
  unfoldable pub scan : Text → Text × Scanned
  unfolding skip_whitespace scan_token
  scan s = let (blank, rest) = skip_whitespace s in (blank, scan_token rest)
