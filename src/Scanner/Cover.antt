-- ===== src/Scanner/Cover.antt =====
-- The characters of a text go into its tokens, all of them and in order, and a token takes one at least.
use pggen.Prelude.{
  ℕ, zero, suc, ◌+◌, ◌≡◌, refl, ap, ◌∙◌, Bool, true, false, not, ◌&&◌, ◌||◌, [], ◌∷◌, ◌++◌,
  append_assoc, Option, none, some, arith, ◌==◌, if◌then◌else◌, take, drop, take-append-drop,
}
use pggen.Prelude.Text.{Text, byte_length}
use pggen.Scanner.{
  Token, block_comment, string, quoted_ident, Body, prepend, push, peek, skip_whitespace,
  line_comment_body, block_comment_body, quoted_body, index_of, tag_body, dollar_contents,
  dollar_string, fragment_body, is_word, Scanned, token, ended, literal_token, fragment_token,
  comment_token, scan_token, scan,
}

-- A body is the front of a text.
pub data IsFront (s : Text) : Body → Type 0 where
  nothing : IsFront s none
  front : {body rest : Text} → body ++ rest ≡ s → IsFront s (some (body, rest))

IsFront-prepend : (c : ℕ) {s : Text} {b : Body} → IsFront s b → IsFront (c ∷ s) (prepend c b)
IsFront-prepend c nothing = nothing
IsFront-prepend c (front h) = front (ap (◌∷◌ c) h)

-- The two parts of a text.
pub data Parts (s : Text) : Text × Text → Type 0 where
  parts : {body rest : Text} → body ++ rest ≡ s → Parts s (body, rest)

Parts-push : (c : ℕ) {s : Text} {p : Text × Text} → Parts s p → Parts (c ∷ s) (push c p)
Parts-push c (parts h) = parts (ap (◌∷◌ c) h)

Parts-if :
    (b : Bool) {s : Text} {x y : Text × Text} → Parts s x → Parts s y → Parts s (if b then x else y)
Parts-if true hx hy = hx
Parts-if false hx hy = hy

pub skip_whitespace_split : (s : Text) → (skip_whitespace s).0 ++ (skip_whitespace s).1 ≡ s
unfolding skip_whitespace
skip_whitespace_split [] = refl
skip_whitespace_split (c ∷ s) = ground (arith, skip_whitespace_split s)

line_comment_body-Parts : (s : Text) → Parts s (line_comment_body s)
unfolding line_comment_body
line_comment_body-Parts [] = parts refl
line_comment_body-Parts (c ∷ s) =
    Parts-if (c == b'\n') (parts refl) (Parts-push c (line_comment_body-Parts s))

IsFront-if :
    (b : Bool) {s : Text} {x y : Body} → IsFront s x → IsFront s y → IsFront s (if b then x else y)
IsFront-if true hx hy = hx
IsFront-if false hx hy = hy

block_comment_body-IsFront : (depth : ℕ) (s : Text) → IsFront s (block_comment_body depth s)
unfolding block_comment_body
block_comment_body-IsFront zero s = front refl
block_comment_body-IsFront (suc depth) [] = nothing
block_comment_body-IsFront (suc depth) (c ∷ []) = nothing
block_comment_body-IsFront (suc depth) (c ∷ d ∷ s) =
    IsFront-if (c == b'*' && d == b'/')
      (IsFront-prepend c (IsFront-prepend d (block_comment_body-IsFront depth s)))
      (IsFront-if (c == b'/' && d == b'*')
        (IsFront-prepend c (IsFront-prepend d (block_comment_body-IsFront (suc (suc depth)) s)))
        (IsFront-prepend c (block_comment_body-IsFront (suc depth) (d ∷ s))))

quoted_body-IsFront : (quote : ℕ) (s : Text) → IsFront s (quoted_body quote s)
unfolding quoted_body
quoted_body-IsFront quote [] = nothing
quoted_body-IsFront quote (c ∷ []) =
    IsFront-if (c == 0) nothing (IsFront-if (c == quote) (front refl) nothing)
quoted_body-IsFront quote (c ∷ d ∷ s) = IsFront-if (c == 0) nothing (
    IsFront-if (c == quote)
      (IsFront-if (d == quote) (IsFront-prepend c (IsFront-prepend d (quoted_body-IsFront quote s)))
        (front refl))
      (IsFront-prepend c (quoted_body-IsFront quote (d ∷ s))))

-- The characters that a token was read from, and the rest, are the text.
pub data Covers (s : Text) : Scanned → Type 0 where
  read :
      {tok : Token} {used lit rest : Text} → used ++ rest ≡ s → Covers s (token tok used lit rest)
  stopped : {tok : Token} → Covers s (ended tok)

Covers-if :
    (b : Bool) {s : Text} {x y : Scanned} → Covers s x → Covers s y → Covers s (if b then x else y)
Covers-if true hx hy = hx
Covers-if false hx hy = hy

Covers-fragment : {s : Text} {p : Text × Text} → Parts s p → Covers s (fragment_token p)
Covers-fragment (parts h) = read h

Covers-comment : {s : Text} {p : Text × Text} → Parts s p → Covers s (comment_token p)
Covers-comment (parts h) = read h

Covers-literal :
    (tok : Token) (opening : Text) {s : Text} {b : Body}
    → IsFront s b
    → Covers (opening ++ s) (literal_token tok opening b)
Covers-literal tok opening nothing = stopped
Covers-literal tok opening (front {body} {rest} h) =
    read (append_assoc opening body rest ∙ ap (λ r. opening ++ r) h)

block_Covers :
    (c : ℕ) (s : Text) {y : Scanned}
    → Covers (c ∷ s) y
    → Covers (c ∷ s) (
        if peek s == b'*'
        then literal_token block_comment (c ∷ peek s ∷ []) (block_comment_body 1 (drop 1 s))
        else y)
block_Covers c [] hy = hy
block_Covers c (d ∷ s) hy =
    Covers-if (d == b'*')
      (Covers-literal block_comment (c ∷ d ∷ []) (block_comment_body-IsFront 1 s)) hy

module _ (is_unicode_letter : ℕ → Bool) where
  tag_body-IsFront : (s : Text) → IsFront s (tag_body is_unicode_letter s)
  unfolding tag_body
  tag_body-IsFront [] = nothing
  tag_body-IsFront (c ∷ s) = IsFront-if (c == b'$') (front refl) (
      IsFront-if (not (is_word is_unicode_letter c)) nothing
        (IsFront-prepend c (tag_body-IsFront s)))

  dollar_contents-IsFront : (tag s : Text) → IsFront s (dollar_contents is_unicode_letter tag s)
  unfolding dollar_contents
  dollar_contents-IsFront tag s = go (index_of s tag)
    where
      go :
          (o : Option Text)
          → IsFront s (elim o [
            | none ↦ none
            | some before ↦
                let steps = byte_length before + byte_length tag in
                some (take steps s, drop steps s)
          ])
      go none = nothing
      go (some before) = front (take-append-drop (byte_length before + byte_length tag) s)

  dollar_string-IsFront :
      (c : ℕ) (s : Text)
      → IsFront (c ∷ s) (dollar_string is_unicode_letter c (tag_body is_unicode_letter s))
  dollar_string-IsFront c s = go (tag_body-IsFront s)
    where
      behind :
          (tag s' : Text) {b : Body}
          → IsFront s' b
          → c ∷ (tag ++ s') ≡ c ∷ s
          → IsFront
              (c ∷ s)
              (elim b [ none ↦ none | some (body, rest) ↦ some ((c ∷ tag) ++ body, rest) ])
      behind tag s' nothing e = nothing
      behind tag s' (front {body} {rest} h) e =
          front (ap (◌∷◌ c) (append_assoc tag body rest ∙ ap (λ r. tag ++ r) h) ∙ e)

      go : {b : Body} → IsFront s b → IsFront (c ∷ s) (dollar_string is_unicode_letter c b)
      go nothing = nothing
      go (front {body = tag} {rest = s'} h) =
          behind tag s' (dollar_contents-IsFront (c ∷ tag) s') (ap (◌∷◌ c) h)

  fragment_body-Parts :
      (in_identifier : Bool) (prev : ℕ) (s : Text)
      → Parts s (fragment_body is_unicode_letter in_identifier prev s)
  unfolding fragment_body
  fragment_body-Parts in_identifier prev [] = parts refl
  fragment_body-Parts in_identifier prev (c ∷ s) =
      Parts-if (in_identifier && (is_word is_unicode_letter c || c == b'$'))
        (Parts-push c (fragment_body-Parts true c s))
        (Parts-if
          (c == 0
            || c == b';'
            || (c == b'-' && peek s == b'-')
            || (c == b'/' && peek s == b'*')
            || c == b'\''
            || c == b'"')
          (parts refl)
          (Parts-if (c == b'$')
            (Parts-if (is_word is_unicode_letter prev) (Parts-push c (fragment_body-Parts true c s))
              (parts refl))
            (Parts-push c (fragment_body-Parts false c s))))

  pub scan_token-Covers : (s : Text) → Covers s (scan_token is_unicode_letter s)
  unfolding scan_token
  scan_token-Covers [] = stopped
  scan_token-Covers (c ∷ s) =
      Covers-if (c == b'-')
        (Covers-if (peek s == b'-') (Covers-comment (line_comment_body-Parts (c ∷ s))) other)
        (Covers-if (c == b'/') (block_Covers c s other) (
          Covers-if (c == b'\'') (Covers-literal string (c ∷ []) (quoted_body-IsFront c s)) (
            Covers-if (c == b'$') (Covers-literal string [] (dollar_string-IsFront c s)) (
              Covers-if (c == b'"') (Covers-literal quoted_ident (c ∷ []) (quoted_body-IsFront c s))
                (Covers-if (c == b';') (read refl) other)))))
    where
      other : Covers (c ∷ s) (fragment_token (fragment_body is_unicode_letter false 0 (c ∷ s)))
      other = Covers-fragment (fragment_body-Parts false 0 (c ∷ s))

-- The blanks in front of a token, the characters it is read from and the text behind it are
-- the text.
pub scan-Covers :
    (is_unicode_letter : ℕ → Bool) (s : Text) {blank used lit rest : Text} {tok : Token}
    → scan is_unicode_letter s ≡ (blank, token tok used lit rest)
    → blank ++ (used ++ rest) ≡ s
unfolding scan
scan-Covers is_unicode_letter s {blank} {used} {lit} {rest} {tok} e =
    ap (λ r. blank ++ r)
      (covered (scan_token-Covers is_unicode_letter (skip_whitespace s).1) (ap (λ p. p.1) e))
    ∙ cc (skip_whitespace_split s, ap (λ p. p.0) e)
  where
    covered :
        {x : Scanned}
        → Covers (skip_whitespace s).1 x
        → x ≡ token tok used lit rest
        → used ++ rest ≡ (skip_whitespace s).1
    covered (read h) e' = ground (arith, h)
    covered stopped e' = cc
