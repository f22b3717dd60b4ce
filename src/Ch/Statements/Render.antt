-- ===== src/Ch/Statements/Render.antt =====
-- `SplitStatements` against a description of a file as a list of segments.
use pggen.Prelude.{
  ℕ, zero, suc, ◌<◌, ◌≡◌, refl, ap, sym, ◌∙◌, Bool, true, false, List, [], ◌∷◌, ◌++◌, append_assoc,
  append-nil, none, some, arith, ◌==◌, ◌&&◌, ◌||◌, length, length-append,
}
use pggen.Prelude.Text.{Text, trim_space}
use pggen.Ch.Statements.{is_quote, skip_literal, skip_comment, flush, split_loop, split_statements}
use pggen.Ch.Statements.Segments.{
  IsLiteral, IsComment, line, block, skip_literal-IsLiteral, skip_comment-IsComment,
}
use pggen.Ch.Statements.Split.{
  split_loop_comment, split_loop_literal, split_loop_semicolon, split_loop_byte,
}

-- A file as it is written: bytes, literals, comments, and the semicolons between statements.
pub data Segment : Type 0 where
  byte : ℕ → Segment
  literal : Text → Segment
  comment : Text → Segment
  semicolon : Segment

abbrev pub render : List Segment → Text
render [] = []
render (byte c ∷ ss) = c ∷ render ss
render (literal t ∷ ss) = t ++ render ss
render (comment t ∷ ss) = t ++ render ss
render (semicolon ∷ ss) = b';' ∷ render ss

-- `c` and the byte after it open a comment.
abbrev pub opens_comment : ℕ → Text → Bool
opens_comment c [] = false
opens_comment c (d ∷ s) = (c == b'-' && d == b'-') || (c == b'/' && d == b'*')

-- The segments are what they claim to be, where they stand.
pub data IsSql : List Segment → Type 0 where
  done : IsSql []
  of_byte :
      {c : ℕ} {ss : List Segment}
      → is_quote c ≡ false
      → (c == b';') ≡ false
      → opens_comment c (render ss) ≡ false
      → IsSql ss
      → IsSql (byte c ∷ ss)
  of_literal : {t : Text} {ss : List Segment} → IsLiteral t → IsSql ss → IsSql (literal t ∷ ss)
  of_comment :
      {t : Text} {ss : List Segment} → IsComment t (render ss) → IsSql ss → IsSql (comment t ∷ ss)
  of_semicolon : {ss : List Segment} → IsSql ss → IsSql (semicolon ∷ ss)

-- The texts between the semicolons behind `sb`, a newline for each comment.
abbrev pub between : Text → List Segment → List Text
between sb [] = sb ∷ []
between sb (byte c ∷ ss) = between (sb ++ c ∷ []) ss
between sb (literal t ∷ ss) = between (sb ++ t) ss
between sb (comment t ∷ ss) = between (sb ++ b'\n' ∷ []) ss
between sb (semicolon ∷ ss) = sb ∷ between [] ss

-- Of these the ones that are not blank, trimmed.
abbrev pub keep_nonblank : List Text → List Text
keep_nonblank [] = []
keep_nonblank (t ∷ ts) = elim (trim_space t) [
  | [] ↦ keep_nonblank ts
  | c ∷ stmt ↦ (c ∷ stmt) ∷ keep_nonblank ts
]

abbrev pub statements : List Segment → List Text
statements ss = keep_nonblank (between [] ss)

flush-keep_nonblank :
    (stmts : List Text) (sb : Text) (ts : List Text)
    → flush stmts sb ++ keep_nonblank ts ≡ stmts ++ keep_nonblank (sb ∷ ts)
unfolding flush
flush-keep_nonblank stmts sb ts = go (trim_space sb)
  where
    go :
        (t : Text)
        → elim t [ [] ↦ stmts | c ∷ stmt ↦ stmts ++ (c ∷ stmt) ∷ [] ] ++ keep_nonblank ts
          ≡ stmts ++ elim t [ [] ↦ keep_nonblank ts | c ∷ stmt ↦ (c ∷ stmt) ∷ keep_nonblank ts ]
    go [] = refl
    go (c ∷ t) = append_assoc stmts ((c ∷ t) ∷ []) (keep_nonblank ts)

pub skip_comment-none : (c : ℕ) (s : Text) → opens_comment c s ≡ false → skip_comment (c ∷ s) ≡ none
unfolding skip_comment
skip_comment-none c [] h = refl
skip_comment-none c (d ∷ s) h = ground arith

pub skip_literal-none : (c : ℕ) (s : Text) → is_quote c ≡ false → skip_literal (c ∷ s) ≡ none
unfolding skip_literal
skip_literal-none c s h = rw h

pub opens_comment_quote : (q : ℕ) (s : Text) → is_quote q ≡ true → opens_comment q s ≡ false
opens_comment_quote q [] h = refl
opens_comment_quote q (d ∷ s) h = ground arith

semicolon_opens_nothing : (s : Text) → opens_comment b';' s ≡ false
semicolon_opens_nothing [] = refl
semicolon_opens_nothing (d ∷ s) = refl

-- A comment has a first byte and goes through the loop as one newline.
split_loop-IsComment :
    (f : ℕ) {t rest : Text} (sb : Text) (stmts : List Text)
    → IsComment t rest
    → (0 < length t)
      × (split_loop (suc f) (t ++ rest) sb stmts ≡ split_loop f rest (sb ++ b'\n' ∷ []) stmts)
split_loop-IsComment f sb stmts (line {body} {rest} h) = (
  omega arith,
  split_loop_comment f b'-' (b'-' ∷ (body ++ b'\n' ∷ rest)) sb stmts
      (skip_comment-IsComment (line h)),
)
split_loop-IsComment f {rest = rest} sb stmts (block {body} b) = (
  omega arith,
  split_loop_comment f b'/' (b'*' ∷ (body ++ rest)) sb stmts (skip_comment-IsComment (block b)),
)

split_loop-render :
    {ss : List Segment} (f : ℕ) (sb : Text) (stmts : List Text)
    → IsSql ss
    → length (render ss) < f
    → split_loop f (render ss) sb stmts ≡ some (stmts ++ keep_nonblank (between sb ss))
split_loop-render zero sb stmts q h = absurd (omega arith)
split_loop-render (suc f) sb stmts done h =
    unfold split_loop in ap some (sym (append-nil _) ∙ flush-keep_nonblank stmts sb [])
split_loop-render (suc f) sb stmts (of_byte {c} {ss} nq ns nc q) h =
    split_loop_byte f c (render ss) sb stmts (skip_comment-none c _ nc) (skip_literal-none c _ nq)
      ns
    ∙ split_loop-render f _ stmts q (omega arith)
split_loop-render (suc f) sb stmts (of_semicolon {ss} q) h =
    split_loop_semicolon f b';' (render ss) sb stmts
      (skip_comment-none b';' _ (semicolon_opens_nothing (render ss)))
      (skip_literal-none b';' _ refl) refl
    ∙ split_loop-render f [] (flush stmts sb) q (omega arith)
    ∙ ap some (flush-keep_nonblank stmts sb (between [] ss))
split_loop-render (suc f) sb stmts (of_literal {ss = ss} (IsLiteral.literal {q = c} {body} hq b) q)
      h =
    split_loop_literal f c (body ++ render ss) sb stmts
      (skip_comment-none c _ (opens_comment_quote c _ hq))
      (skip_literal-IsLiteral (render ss) (IsLiteral.literal hq b))
    ∙ split_loop-render f _ stmts q (omega (arith, length-append body (render ss)))
split_loop-render (suc f) sb stmts (of_comment {t} {ss} k q) h =
    let (lt, e) = split_loop-IsComment f sb stmts k in
    e ∙ split_loop-render f _ stmts q (omega (arith, length-append t (render ss)))

-- The segments of a file determine its statements: the texts between the semicolons that are
-- segments of their own, each comment a newline, trimmed, the blank ones left out.
pub split_statements-render :
    {ss : List Segment} → IsSql ss → split_statements (render ss) ≡ some (statements ss)
unfolding split_statements
split_statements-render {ss} q = split_loop-render (suc (length (render ss))) [] [] q (omega arith)
