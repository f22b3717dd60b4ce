-- ===== src/Ch/Insert/Blank.antt =====
-- What is left where blanks and comments are skipped.
use pggen.Prelude.{
  ℕ, zero, suc, ◌≤◌, ◌≡◌, inl, inr, true, false, [], ◌∷◌, none, some, arith, length, Bool-cases,
  Option-cases,
}
use pggen.Prelude.Text.{Text}
use pggen.Ch.Statements.{skip_comment}
use pggen.Ch.Statements.Segments.{skip_comment-split}
use pggen.Ch.Insert.{is_space_byte, skip_blank_loop, skip_space_and_comments}

-- The text is empty, or begins with a byte that is no space and opens no comment.
abbrev pub IsStart : Text → Type 0
IsStart [] = Unit
IsStart (c ∷ s) = (is_space_byte c ≡ false) × (skip_comment (c ∷ s) ≡ none)

-- The rounds of the loop.
module _ (f c : ℕ) (s : Text) where
  skip_blank_space : is_space_byte c ≡ true → skip_blank_loop (suc f) (c ∷ s) ≡ skip_blank_loop f s
  unfolding skip_blank_loop
  skip_blank_space e = rw (e, skip_blank_loop)

  skip_blank_comment :
      {k rest : Text}
      → is_space_byte c ≡ false
      → skip_comment (c ∷ s) ≡ some (k, rest)
      → skip_blank_loop (suc f) (c ∷ s) ≡ skip_blank_loop f rest
  unfolding skip_blank_loop
  skip_blank_comment e e' = rw (e, e', skip_blank_loop)

  skip_blank_other :
      is_space_byte c ≡ false
      → skip_comment (c ∷ s) ≡ none
      → skip_blank_loop (suc f) (c ∷ s) ≡ c ∷ s
  unfolding skip_blank_loop
  skip_blank_other e e' = rw (e, e', skip_blank_loop)

skip_blank_loop-IsStart : (f : ℕ) (sql : Text) → length sql ≤ f → IsStart (skip_blank_loop f sql)
skip_blank_loop-IsStart zero [] h = unfold skip_blank_loop in tt
skip_blank_loop-IsStart zero (c ∷ s) h = absurd (omega arith)
skip_blank_loop-IsStart (suc f) [] h = unfold skip_blank_loop in tt
skip_blank_loop-IsStart (suc f) (c ∷ s) h = elim (Bool-cases (is_space_byte c)) [
  | inl e ↦ rw (skip_blank_space f c s e) (skip_blank_loop-IsStart f s (omega arith))
  | inr e ↦ elim (Option-cases (skip_comment (c ∷ s))) [
    | inr ((k, rest), e') ↦
        rw (skip_blank_comment f c s e e')
          (skip_blank_loop-IsStart f rest (omega (arith, (skip_comment-split (c ∷ s) e').1)))
    | inl e' ↦ rw (skip_blank_other f c s e e') (e, e')
  ]
]

-- What skipSpaceAndComments leaves is empty, or begins with a byte that is no space and opens
-- no comment, whatever the text is.
pub skip_space_and_comments-IsStart : (sql : Text) → IsStart (skip_space_and_comments sql)
unfolding skip_space_and_comments
skip_space_and_comments-IsStart sql = skip_blank_loop-IsStart (length sql) sql (omega arith)
