-- ===== src/Scanner/Tokens.antt =====
-- The tokens of a whole file: the calls of `Scan` up to the end of the file or an illegal token.
use mathlib.Core.Path.{subst}
use pggen.Prelude.{
  ℕ, zero, suc, ◌+◌, ◌<◌, ◌≡◌, refl, ap, sym, ◌≢◌, Bool, List, [], ◌∷◌, ◌++◌, Option, none, some,
  arith, length, length-append,
}
use pggen.Prelude.{All, All-right}
use pggen.Prelude.Text.{Text}
use pggen.Scanner.{Token, skip_whitespace, Scanned, token, ended, scan_token, fragment_body}
use pggen.Scanner.Cover.{Covers, read, scan_token-Covers, skip_whitespace_split}
use pggen.Scanner.Progress.{Takes, took, scan_token-Takes}

-- What a call of `Scan` returns; `pos` counts the characters in front of the token.
pub record Lexeme : Type 0 where
  pub tok : Token
  pub pos : ℕ
  pub lit : Text

shorter_rest :
    (used rest : Text) {f : ℕ} {s : Text}
    → used ≢ []
    → used ++ rest ≡ s
    → length s < suc f
    → length rest < f
shorter_rest [] rest ne e less = ground (arith, ne)
shorter_rest (c ∷ used) rest {f} ne e less =
    omega (arith, ap length e, length-append used rest, less)

module _ (is_unicode_letter : ℕ → Bool) where
  -- The calls from the text `s` on, that stands at `at`; `none` where the fuel runs out.
  unfoldable pub tokens : ℕ → ℕ → Text → Option (List Lexeme)
  unfolding skip_whitespace scan_token
  tokens zero at s = none
  tokens (suc f) at s =
      let start = at + length (skip_whitespace s).0 in
      elim (scan_token is_unicode_letter (skip_whitespace s).1) [
        | ended tok ↦ some (record { tok = tok; pos = start; lit = [] } ∷ [])
        | token tok used lit rest ↦ elim (tokens f (start + length used) rest) [
          | none ↦ none
          | some lexemes ↦ some (record { tok = tok; pos = start; lit = lit } ∷ lexemes)
        ]
      ]

  -- The rounds of the loop.
  pub tokens_end :
      (f at : ℕ) (s : Text) {tok : Token}
      → scan_token is_unicode_letter (skip_whitespace s).1 ≡ ended tok
      → tokens (suc f) at s
        ≡ some (record { tok = tok; pos = at + length (skip_whitespace s).0; lit = [] } ∷ [])
  unfolding tokens
  tokens_end f at s e = rw (e, tokens) refl

  pub tokens_token :
      (f at : ℕ) (s : Text) {tok : Token} {used lit rest : Text}
      → scan_token is_unicode_letter (skip_whitespace s).1 ≡ token tok used lit rest
      → tokens (suc f) at s
        ≡ elim (tokens f (at + length (skip_whitespace s).0 + length used) rest) [
          | none ↦ none
          | some lexemes ↦
              some
                (record { tok = tok; pos = at + length (skip_whitespace s).0; lit = lit } ∷ lexemes)
        ]
  unfolding tokens
  tokens_token f at s e = rw (e, tokens) refl

  -- At a NUL between two tokens the scanner makes no progress: however many calls of Scan are
  -- made, they do not reach the end of the file.
  pub tokens_nul : (f at : ℕ) (s : Text) → tokens f at (0 ∷ s) ≡ none
  unfolding tokens skip_whitespace scan_token fragment_body
  tokens_nul zero at s = refl
  tokens_nul (suc f) at s = rw (tokens_nul f (at + 0 + 0) s) refl

  -- A round, where the rest of the text has its tokens.
  tokens_round :
      (f at : ℕ) (s : Text) (x : Scanned)
      → ((at' : ℕ) (rest : Text)
          → length rest < f
          → All (λ c. c ≢ 0) rest
          → tokens f at' rest ≢ none)
      → scan_token is_unicode_letter (skip_whitespace s).1 ≡ x
      → Covers (skip_whitespace s).1 x
      → Takes x
      → length s < suc f
      → All (λ c. c ≢ 0) (skip_whitespace s).1
      → tokens (suc f) at s ≢ none
  tokens_round f at s (ended tok) later e hc ht less h = λ e'. cc (tokens_end f at s e)
  tokens_round f at s (token tok used lit rest) later e (read hc) (took ne) less h =
      let start = at + length (skip_whitespace s).0 in
      let shorter : length rest < f = shorter_rest used rest ne hc (
        omega (
          arith,
          less,
          ap length (skip_whitespace_split s),
          length-append (skip_whitespace s).0 (skip_whitespace s).1,
        )) in
      let on : All (λ c. c ≢ 0) rest =
        All-right (λ c. c ≢ 0) used rest (subst (All (λ c. c ≢ 0)) (sym hc) h) in
      more (tokens f (start + length used) rest) _ (later (start + length used) rest shorter on)
        (tokens_token f at s e)
    where
      more :
          (o : Option (List Lexeme)) (l : Lexeme)
          → o ≢ none
          → tokens (suc f) at s ≡ elim o [ none ↦ none | some lexemes ↦ some (l ∷ lexemes) ]
          → tokens (suc f) at s ≢ none
      more none l ne' e' = λ _. ne' refl
      more (some lexemes) l ne' e' = cc

  -- A text without a NUL has its tokens, down to the end of the file or an illegal token, in one
  -- call of Scan more than it has characters at most.
  pub tokens_total :
      (f at : ℕ) (s : Text) → length s < f → All (λ c. c ≢ 0) s → tokens f at s ≢ none
  tokens_total zero at s less h = ground arith
  tokens_total (suc f) at s less h =
      let on : All (λ c. c ≢ 0) (skip_whitespace s).1 =
        All-right (λ c. c ≢ 0) (skip_whitespace s).0 (skip_whitespace s).1
          (subst (All (λ c. c ≢ 0)) (sym (skip_whitespace_split s)) h) in
      tokens_round f at s (scan_token is_unicode_letter (skip_whitespace s).1) (tokens_total f) refl
        (scan_token-Covers is_unicode_letter (skip_whitespace s).1)
        (scan_token-Takes is_unicode_letter (skip_whitespace s).1 on) less on
