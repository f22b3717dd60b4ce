-- ===== src/Scanner/Literal.antt =====
-- A quoted string or identifier is read back whole.
use mathlib.Core.Path.{subst}
use pggen.Prelude.{
  ℕ, ◌≡◌, refl, ap, sym, ◌∙◌, ◌≢◌, Bool, true, false, [], ◌∷◌, ◌++◌, Option, none, some, arith,
  ◌==◌, ==_iff, if◌then◌else◌, All,
}
use pggen.Prelude.Text.{Text}
use pggen.Scanner.{
  Token, string, quoted_ident, prepend, peek, skip_whitespace, quoted_body, token, literal_token,
  scan_token, scan,
}

-- A text as SQL writes it between quotes: each quote twice.
abbrev pub doubled : ℕ → Text → Text
doubled quote [] = []
doubled quote (c ∷ s) = if c == quote then c ∷ c ∷ doubled quote s else c ∷ doubled quote s

quoted_body_step :
    (quote c : ℕ) (s : Text)
    → s ≢ []
    → (c == 0) ≡ false
    → (c == quote) ≡ false
    → quoted_body quote (c ∷ s) ≡ prepend c (quoted_body quote s)
unfolding quoted_body
quoted_body_step quote c [] ne e e' = ground (arith, ne)
quoted_body_step quote c (d ∷ s) ne e e' = rw (e, e', quoted_body) refl

quoted_body_double :
    (quote c : ℕ) (s : Text)
    → (c == 0) ≡ false
    → (c == quote) ≡ true
    → quoted_body quote (c ∷ c ∷ s) ≡ prepend c (prepend c (quoted_body quote s))
unfolding quoted_body
quoted_body_double quote c s e e' = rw (e, e', quoted_body) refl

quoted_body_close :
    (quote : ℕ) (rest : Text)
    → (quote == 0) ≡ false
    → (peek rest == quote) ≡ false
    → quoted_body quote (quote ∷ rest) ≡ some (quote ∷ [], rest)
unfolding quoted_body
quoted_body_close quote [] e e' = ground arith
quoted_body_close quote (d ∷ rest) e e' = ground arith

not_nil : (xs ys : Text) → ys ≢ [] → xs ++ ys ≢ []
not_nil [] ys ne = ne
not_nil (x ∷ xs) ys ne = cc

quoted_body-doubled :
    (quote : ℕ) (text rest : Text)
    → (quote == 0) ≡ false
    → (peek rest == quote) ≡ false
    → All (λ c. c ≢ 0) text
    → quoted_body quote (doubled quote text ++ quote ∷ rest)
      ≡ some (doubled quote text ++ quote ∷ [], rest)
quoted_body-doubled quote [] rest q e h = quoted_body_close quote rest q e
quoted_body-doubled quote (c ∷ text) rest q e h =
    let later = quoted_body-doubled quote text rest q e h.1 in go (c == quote) refl later
  where
    go :
        (b : Bool)
        → (c == quote) ≡ b
        → quoted_body quote (doubled quote text ++ quote ∷ rest)
          ≡ some (doubled quote text ++ quote ∷ [], rest)
        → quoted_body quote
            ((if b then c ∷ c ∷ doubled quote text else c ∷ doubled quote text) ++ quote ∷ rest)
          ≡ some (
            (if b then c ∷ c ∷ doubled quote text else c ∷ doubled quote text) ++ quote ∷ [],
            rest,
          )
    go true e' later =
        quoted_body_double quote c (doubled quote text ++ quote ∷ rest) (ground (arith, h.0)) e'
        ∙ ap (λ b. prepend c (prepend c b)) later
    go false e' later =
        quoted_body_step quote c (doubled quote text ++ quote ∷ rest)
          (not_nil (doubled quote text) (quote ∷ rest) (cc)) (ground (arith, h.0)) e'
        ∙ ap (prepend c) later

-- `Scan` of a quoted text, behind any blanks.
scan_token-string :
    (is_unicode_letter : ℕ → Bool) (s : Text) {body rest : Text}
    → quoted_body b'\'' s ≡ some (body, rest)
    → scan_token is_unicode_letter (b'\'' ∷ s) ≡ token string (b'\'' ∷ body) (b'\'' ∷ body) rest
unfolding scan_token
scan_token-string is_unicode_letter s e = ap (literal_token string (b'\'' ∷ [])) e

scan_token-quoted_ident :
    (is_unicode_letter : ℕ → Bool) (s : Text) {body rest : Text}
    → quoted_body b'"' s ≡ some (body, rest)
    → scan_token is_unicode_letter (b'"' ∷ s) ≡ token quoted_ident (b'"' ∷ body) (b'"' ∷ body) rest
unfolding scan_token
scan_token-quoted_ident is_unicode_letter s e = ap (literal_token quoted_ident (b'"' ∷ [])) e

-- The token that a quote begins.
abbrev pub quoted_token : ℕ → Option Token
quoted_token quote =
    if quote == b'\'' then some string else if quote == b'"' then some quoted_ident else none

-- `Scan` at a quote reads a token that has the whole literal, and leaves the rest.
abbrev ReadsBack : (ℕ → Bool) → Text → Text → ℕ → Token → Type 0
ReadsBack is_unicode_letter text rest quote tok =
    scan is_unicode_letter (quote ∷ (doubled quote text ++ quote ∷ rest)) ≡ (
      [],
      token tok (quote ∷ (doubled quote text ++ quote ∷ []))
          (quote ∷ (doubled quote text ++ quote ∷ [])) rest,
    )

scan-string :
    (is_unicode_letter : ℕ → Bool) (text rest : Text)
    → (peek rest == b'\'') ≡ false
    → All (λ c. c ≢ 0) text
    → ReadsBack is_unicode_letter text rest b'\'' string
unfolding scan skip_whitespace
scan-string is_unicode_letter text rest e h =
    ap (λ x. ([], x))
      (scan_token-string is_unicode_letter (doubled b'\'' text ++ b'\'' ∷ rest)
        (quoted_body-doubled b'\'' text rest refl e h))

scan-quoted_ident :
    (is_unicode_letter : ℕ → Bool) (text rest : Text)
    → (peek rest == b'"') ≡ false
    → All (λ c. c ≢ 0) text
    → ReadsBack is_unicode_letter text rest b'"' quoted_ident
unfolding scan skip_whitespace
scan-quoted_ident is_unicode_letter text rest e h =
    ap (λ x. ([], x))
      (scan_token-quoted_ident is_unicode_letter (doubled b'"' text ++ b'"' ∷ rest)
        (quoted_body-doubled b'"' text rest refl e h))

-- A string or an identifier that SQL's doubling of quotes writes is scanned as one token that
-- has the literal's whole text, if the text has no NUL and what stands behind it is not
-- another such quote.
pub scan-quoted :
    (is_unicode_letter : ℕ → Bool) (quote : ℕ) (tok : Token) (text rest : Text)
    → quoted_token quote ≡ some tok
    → (peek rest == quote) ≡ false
    → All (λ c. c ≢ 0) text
    → scan is_unicode_letter (quote ∷ (doubled quote text ++ quote ∷ rest)) ≡ (
      [],
      token tok
          (quote ∷ (doubled quote text ++ quote ∷ []))
          (quote ∷ (doubled quote text ++ quote ∷ []))
          rest,
    )
scan-quoted is_unicode_letter quote tok text rest hq e h =
    go (quote == b'\'') (quote == b'"') refl refl hq
  where
    go :
        (b b' : Bool)
        → (quote == b'\'') ≡ b
        → (quote == b'"') ≡ b'
        → ◌≡◌ {A = Option Token}
            (if b then some string else if b' then some quoted_ident else none)
            (some tok)
        → ReadsBack is_unicode_letter text rest quote tok
    go true b' e1 e2 ht =
        let q : b'\'' ≡ quote = sym ((==_iff quote b'\'').0 e1) in
        let t : string ≡ tok = cc in
        subst (λ q. ReadsBack is_unicode_letter text rest q tok) q
          (subst (λ t. ReadsBack is_unicode_letter text rest b'\'' t) t
            (scan-string is_unicode_letter text rest (ground (arith, e, e1)) h))
    go false true e1 e2 ht =
        let q : b'"' ≡ quote = sym ((==_iff quote b'"').0 e2) in
        let t : quoted_ident ≡ tok = cc in
        subst (λ q. ReadsBack is_unicode_letter text rest q tok) q
          (subst (λ t. ReadsBack is_unicode_letter text rest b'"' t) t
            (scan-quoted_ident is_unicode_letter text rest (ground (arith, e, e2)) h))
    go false false e1 e2 ht = cc
