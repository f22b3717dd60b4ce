-- ===== src/Scanner/Positions.antt =====
-- The literals of the tokens stand in the file where their positions say.
use mathlib.Core.Path.{subst}
use pggen.Prelude.{
  ℕ, zero, suc, ◌+◌, ◌≡◌, refl, ap, sym, ◌∙◌, Bool, true, false, List, [], ◌∷◌, ◌++◌, append_assoc,
  Option, none, some, ◌==◌, if◌then◌else◌, length, length-append, take, drop, take-length,
  drop-length, All,
}
use pggen.Prelude.Text.{Text}
use pggen.Scanner.{
  Token, block_comment, string, quoted_ident, Body, peek, line_comment_body, block_comment_body,
  quoted_body, tag_body, dollar_string, fragment_body, skip_whitespace, Scanned, token, ended,
  literal_token, fragment_token, comment_token, scan_token,
}
use pggen.Scanner.Cover.{Covers, read, scan_token-Covers, skip_whitespace_split}
use pggen.Scanner.Tokens.{Lexeme, tokens, tokens_end, tokens_token}

-- A token's literal is all it was read from, or empty.
pub data Spells : Scanned → Type 0 where
  all_used : {tok : Token} {used rest : Text} → Spells (token tok used used rest)
  silent : {tok : Token} {used rest : Text} → Spells (token tok used [] rest)
  nothing : {tok : Token} → Spells (ended tok)

Spells-if : (b : Bool) {x y : Scanned} → Spells x → Spells y → Spells (if b then x else y)
Spells-if true hx hy = hx
Spells-if false hx hy = hy

Spells-literal : (tok : Token) (opening : Text) (b : Body) → Spells (literal_token tok opening b)
Spells-literal tok opening none = nothing
Spells-literal tok opening (some (body, rest)) = all_used

Spells-fragment : (p : Text × Text) → Spells (fragment_token p)
Spells-fragment (body, rest) = all_used

Spells-comment : (p : Text × Text) → Spells (comment_token p)
Spells-comment (body, rest) = all_used

-- The literal of a lexeme stands in the text at its position.
abbrev pub StandsIn : Text → Lexeme → Type 0
StandsIn source l = take (length l.lit) (drop l.pos source) ≡ l.lit

stands_whole :
    (front used rest : Text)
    → take (length used) (drop (length front) (front ++ (used ++ rest))) ≡ used
stands_whole front used rest = rw (drop-length front (used ++ rest)) (take-length used rest)

module _ (is_unicode_letter : ℕ → Bool) where
  pub scan_token-Spells : (s : Text) → Spells (scan_token is_unicode_letter s)
  unfolding scan_token
  scan_token-Spells [] = nothing
  scan_token-Spells (c ∷ s) =
      let fragment = Spells-fragment (fragment_body is_unicode_letter false 0 (c ∷ s)) in
      Spells-if (c == b'-')
        (Spells-if (peek s == b'-') (Spells-comment (line_comment_body (c ∷ s))) fragment)
        (Spells-if (c == b'/')
          (Spells-if (peek s == b'*')
            (Spells-literal block_comment (c ∷ peek s ∷ []) (block_comment_body 1 (drop 1 s)))
            fragment)
          (Spells-if (c == b'\'') (Spells-literal string (c ∷ []) (quoted_body c s)) (
            Spells-if (c == b'$')
              (Spells-literal string []
                (dollar_string is_unicode_letter c (tag_body is_unicode_letter s)))
              (Spells-if (c == b'"') (Spells-literal quoted_ident (c ∷ []) (quoted_body c s))
                (Spells-if (c == b';') silent fragment)))))

  -- A round, from a text that has `front` in front of it.
  positions_round :
      (f : ℕ) (source front s : Text) (x : Scanned) {ls : List Lexeme}
      → ((front' rest : Text) (ls' : List Lexeme)
          → source ≡ front' ++ rest
          → tokens is_unicode_letter f (length front') rest ≡ some ls'
          → All (StandsIn source) ls')
      → source ≡ front ++ s
      → scan_token is_unicode_letter (skip_whitespace s).1 ≡ x
      → Covers (skip_whitespace s).1 x
      → Spells x
      → tokens is_unicode_letter (suc f) (length front) s ≡ some ls
      → All (StandsIn source) ls
  positions_round f source front s (ended tok) {ls} later es e hc hs et =
      let single : record { tok = tok; pos = length front + length (skip_whitespace s).0; lit = [] }
            ∷ []
          ≡ ls =
        cc (tokens_end is_unicode_letter f (length front) s e, et) in
      subst (All (StandsIn source)) single (refl, tt)
  positions_round f source front s (token tok used lit rest) {ls} later es e (read hc) hs et =
      go
        (tokens is_unicode_letter f (length front + length (skip_whitespace s).0 + length used)
          rest)
        refl (sym (tokens_token is_unicode_letter f (length front) s e) ∙ et)
    where
      ahead : source ≡ (front ++ (skip_whitespace s).0) ++ (used ++ rest)
      ahead = es ∙ (ap (λ r. front ++ r) (sym (skip_whitespace_split s)) ∙ simp (hc, append_assoc))

      behind : source ≡ ((front ++ (skip_whitespace s).0) ++ used) ++ rest
      behind = ahead ∙ sym (append_assoc (front ++ (skip_whitespace s).0) used rest)

      at : length (front ++ (skip_whitespace s).0) ≡ length front + length (skip_whitespace s).0
      at = length-append front (skip_whitespace s).0

      here :
          {lit : Text}
          → Spells (token tok used lit rest)
          → take (length lit) (drop (length front + length (skip_whitespace s).0) source) ≡ lit
      here all_used = rw (ahead, sym at) (stands_whole (front ++ (skip_whitespace s).0) used rest)
      here silent = refl

      go :
          (o : Option (List Lexeme))
          → tokens is_unicode_letter f
              (length front + length (skip_whitespace s).0 + length used)
              rest
            ≡ o
          → elim o [
            | none ↦ none
            | some lexemes ↦ some (
                record { tok = tok; pos = length front + length (skip_whitespace s).0; lit = lit }
                ∷ lexemes)
          ]
            ≡ some ls
          → All (StandsIn source) ls
      go none e1 e2 = cc
      go (some lexemes) e1 e2 =
          let whole_list : record {
            tok = tok;
            pos = length front + length (skip_whitespace s).0;
            lit = lit;
          }
                ∷ lexemes
              ≡ ls =
            cc in
          let place : length ((front ++ (skip_whitespace s).0) ++ used)
              ≡ length front + length (skip_whitespace s).0 + length used =
            length-append (front ++ (skip_whitespace s).0) used ∙ ap (λ n. n + length used) at in
          subst (All (StandsIn source)) whole_list (
            here hs,
            later ((front ++ (skip_whitespace s).0) ++ used) rest lexemes behind
                (ap (λ n. tokens is_unicode_letter f n rest) place ∙ e1),
          )

  positions_from :
      (f : ℕ) (source front s : Text) (ls : List Lexeme)
      → source ≡ front ++ s
      → tokens is_unicode_letter f (length front) s ≡ some ls
      → All (StandsIn source) ls
  unfolding tokens
  positions_from zero source front s ls es et = cc
  positions_from (suc f) source front s ls es et =
      positions_round f source front s (scan_token is_unicode_letter (skip_whitespace s).1)
        (positions_from f source) es refl
        (scan_token-Covers is_unicode_letter (skip_whitespace s).1)
        (scan_token-Spells (skip_whitespace s).1) et

-- Each token's literal is the text of the file at the token's position.
pub tokens-StandsIn :
    (is_unicode_letter : ℕ → Bool) (f : ℕ) (source : Text) {ls : List Lexeme}
    → tokens is_unicode_letter f 0 source ≡ some ls
    → All (StandsIn source) ls
tokens-StandsIn is_unicode_letter f source {ls} e =
    positions_from is_unicode_letter f source [] source ls refl e
