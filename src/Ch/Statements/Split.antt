-- ===== src/Ch/Statements/Split.antt =====
-- `SplitStatements` and `SingleStatement` against a description of a file as a list of segments.
use pggen.Prelude.{
  ℕ, zero, suc, ◌<◌, ◌≡◌, refl, sym, ◌∙◌, ◌≢◌, inl, inr, true, false, List, [], ◌∷◌, ◌++◌, none,
  some, arith, ◌==◌, length, Bool-cases, All, All-append,
}
use pggen.Prelude.Text.{Text, trim_space, trim_space_idem}
use pggen.Ch.Statements.{skip_literal, skip_comment, flush, split_loop, split_statements}
use mathlib.Core.Option.{some-injective}
use pggen.Ch.Statements.Segments.{comment, View.literal, byte, view}

-- The rounds of the loop.
module _ (f c : ℕ) (s sb : Text) (stmts : List Text) where
  pub split_loop_comment :
      {k rest : Text}
      → skip_comment (c ∷ s) ≡ some (k, rest)
      → split_loop (suc f) (c ∷ s) sb stmts ≡ split_loop f rest (sb ++ b'\n' ∷ []) stmts
  unfolding split_loop
  split_loop_comment e = rw (e, split_loop)

  pub split_loop_literal :
      {k rest : Text}
      → skip_comment (c ∷ s) ≡ none
      → skip_literal (c ∷ s) ≡ some (k, rest)
      → split_loop (suc f) (c ∷ s) sb stmts ≡ split_loop f rest (sb ++ k) stmts
  unfolding split_loop
  split_loop_literal e e' = rw (e, e', split_loop)

  pub split_loop_semicolon :
      skip_comment (c ∷ s) ≡ none
      → skip_literal (c ∷ s) ≡ none
      → (c == b';') ≡ true
      → split_loop (suc f) (c ∷ s) sb stmts ≡ split_loop f s [] (flush stmts sb)
  unfolding split_loop
  split_loop_semicolon e e' semi = rw (e, e', semi, split_loop)

  pub split_loop_byte :
      skip_comment (c ∷ s) ≡ none
      → skip_literal (c ∷ s) ≡ none
      → (c == b';') ≡ false
      → split_loop (suc f) (c ∷ s) sb stmts ≡ split_loop f s (sb ++ c ∷ []) stmts
  unfolding split_loop
  split_loop_byte e e' other = rw (e, e', other, split_loop)

-- Totality: the fuel of `split_statements` is enough.
split_loop_total :
    (f : ℕ) (sql sb : Text) (stmts : List Text)
    → length sql < f
    → (found : List Text) × (split_loop f sql sb stmts ≡ some found)
split_loop_total zero sql sb stmts h = absurd (omega arith)
split_loop_total (suc f) [] sb stmts h = (flush stmts sb, unfold split_loop in refl)
split_loop_total (suc f) (c ∷ s) sb stmts h = elim (view c s) [
  | comment {rest = rest} e _ lt ↦
      rw (split_loop_comment f c s sb stmts e) (split_loop_total f rest _ stmts (omega arith))
  | literal {rest = rest} e e' _ lt ↦
      rw (split_loop_literal f c s sb stmts e e') (split_loop_total f rest _ stmts (omega arith))
  | byte e e' ↦ elim (Bool-cases (c == b';')) [
    | inl semi ↦
        rw (split_loop_semicolon f c s sb stmts e e' semi) (split_loop_total f s [] _ (omega arith))
    | inr other ↦
        rw (split_loop_byte f c s sb stmts e e' other) (split_loop_total f s _ stmts (omega arith))
  ]
]

-- Every text has its list of statements.
pub split_statements_total :
    (sql : Text) → (stmts : List Text) × (split_statements sql ≡ some stmts)
unfolding split_statements
split_statements_total sql = split_loop_total (suc (length sql)) sql [] [] (omega arith)

-- A statement that is not empty and has no space at its ends.
abbrev pub IsTrimmed : Text → Type 0
IsTrimmed t = (t ≢ []) × (trim_space t ≡ t)

flush-All : (stmts : List Text) (sb : Text) → All IsTrimmed stmts → All IsTrimmed (flush stmts sb)
unfolding flush
flush-All stmts sb h = go (trim_space sb) (trim_space_idem sb)
  where
    go :
        (t : Text)
        → trim_space t ≡ t
        → All IsTrimmed (elim t [ [] ↦ stmts | c ∷ stmt ↦ stmts ++ (c ∷ stmt) ∷ [] ])
    go [] e = h
    go (c ∷ t) e = All-append IsTrimmed stmts ((c ∷ t) ∷ []) h ((cc, e), tt)

split_loop_end :
    (f : ℕ) (sb : Text) (stmts : List Text) {found : List Text}
    → split_loop (suc f) [] sb stmts ≡ some found
    → flush stmts sb ≡ found
unfolding split_loop
split_loop_end f sb stmts e = some-injective (flush stmts sb) _ e

split_loop-All :
    (f : ℕ) (sql sb : Text) (stmts found : List Text)
    → All IsTrimmed stmts
    → split_loop f sql sb stmts ≡ some found
    → All IsTrimmed found
split_loop-All zero sql sb stmts found h e = unfold split_loop in cc
split_loop-All (suc f) [] sb stmts found h e =
    rw (← split_loop_end f sb stmts e) (flush-All stmts sb h)
split_loop-All (suc f) (c ∷ s) sb stmts found h e = elim (view c s) [
  | comment {rest = rest} p _ _ ↦
      split_loop-All f rest _ stmts found h (sym (split_loop_comment f c s sb stmts p) ∙ e)
  | literal {rest = rest} p q _ _ ↦
      split_loop-All f rest _ stmts found h (sym (split_loop_literal f c s sb stmts p q) ∙ e)
  | byte p q ↦ elim (Bool-cases (c == b';')) [
    | inl semi ↦
        split_loop-All f s [] _ found (flush-All stmts sb h)
          (sym (split_loop_semicolon f c s sb stmts p q semi) ∙ e)
    | inr other ↦
        split_loop-All f s _ stmts found h (sym (split_loop_byte f c s sb stmts p q other) ∙ e)
  ]
]

-- The statements found are not empty, and have no space at their ends.
pub split_statements-IsTrimmed :
    (sql : Text) {stmts : List Text} → split_statements sql ≡ some stmts → All IsTrimmed stmts
unfolding split_statements
split_statements-IsTrimmed sql {stmts} e = split_loop-All (suc (length sql)) sql [] [] stmts tt e
