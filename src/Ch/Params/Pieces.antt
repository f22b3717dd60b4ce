-- ===== src/Ch/Params/Pieces.antt =====
-- `scanSQL` against a description of a query as a list of pieces.
use pggen.Prelude.{
  ℕ, zero, suc, ◌<◌, ◌≡◌, refl, ap, sym, ◌∙◌, ◌≢◌, false, List, [], ◌∷◌, ◌++◌, append_assoc, arith,
  ◌==◌, length, length-append, All,
}
use pggen.Prelude.Result.{Result, ok, ◌>>=◌, >>=-cong}
use pggen.Prelude.Text.{Text, cut, cut-append, trim_space}
use pggen.Ch.Parse.{parse}
use pggen.Ch.Statements.{is_quote}
use pggen.Ch.Statements.Segments.{
  IsLiteral, IsComment, line, block, skip_literal-IsLiteral, skip_comment-IsComment,
}
use pggen.Ch.Statements.Render.{
  opens_comment, opens_comment_quote, skip_comment-none, skip_literal-none,
}
use pggen.Ch.Params.{
  Param, ScanError, named_param, param_braces, param_body, read_param, emit_text, scan_loop,
  scan_sql,
}
use pggen.Ch.Params.Scan.{scan_loop_comment, scan_loop_literal, scan_loop_param, scan_loop_byte}

-- A query as it is written: bytes, literals, comments, and parameters with their name and their type
-- as written between the braces.
pub data Piece : Type 0 where
  byte : ℕ → Piece
  literal : Text → Piece
  comment : Text → Piece
  param : Text → Text → Param → Piece

abbrev pub render : List Piece → Text
render [] = []
render (byte c ∷ ps) = c ∷ render ps
render (literal t ∷ ps) = t ++ render ps
render (comment t ∷ ps) = t ++ render ps
render (param name spelled p ∷ ps) = b'{' ∷ (name ++ b':' ∷ (spelled ++ b'}' ∷ render ps))

-- The text between the braces is the parameter, with no `}` and one `:` that ends the name.
pub record Spells (name spelled : Text) (p : Param) : Type 0 where
  pub no_colon : All (λ c. c ≢ b':') name
  pub no_brace : All (λ c. c ≢ b'}') (name ++ b':' ∷ spelled)
  pub named : p.name ≢ []
  pub trimmed : trim_space name ≡ p.name
  pub typed : parse (trim_space spelled) ≡ ok p.type

-- The pieces are what they claim to be, where they stand.
pub data IsQuery : List Piece → Type 0 where
  done : IsQuery []
  of_byte :
      {c : ℕ} {ps : List Piece}
      → is_quote c ≡ false
      → (c == b'{') ≡ false
      → opens_comment c (render ps) ≡ false
      → IsQuery ps
      → IsQuery (byte c ∷ ps)
  of_literal : {t : Text} {ps : List Piece} → IsLiteral t → IsQuery ps → IsQuery (literal t ∷ ps)
  of_comment :
      {t : Text} {ps : List Piece} → IsComment t (render ps) → IsQuery ps → IsQuery (comment t ∷ ps)
  of_param :
      {name spelled : Text} {p : Param} {ps : List Piece}
      → Spells name spelled p
      → IsQuery ps
      → IsQuery (param name spelled p ∷ ps)

-- The query with each parameter replaced by what `f` makes of it, all else as it is written.
abbrev pub output : (Param → Text) → List Piece → Text
output f [] = []
output f (byte c ∷ ps) = c ∷ output f ps
output f (literal t ∷ ps) = t ++ output f ps
output f (comment t ∷ ps) = t ++ output f ps
output f (param name spelled p ∷ ps) = f p ++ output f ps

-- The parameters of a query in order.
abbrev pub params_of : List Piece → List Param
params_of [] = []
params_of (byte c ∷ ps) = params_of ps
params_of (literal t ∷ ps) = params_of ps
params_of (comment t ∷ ps) = params_of ps
params_of (param name spelled p ∷ ps) = p ∷ params_of ps

named_param_ok :
    (name spelled : Text) (p : Param)
    → name ≡ p.name
    → p.name ≢ []
    → parse (trim_space spelled) ≡ ok p.type
    → named_param name spelled ≡ ok p
unfolding named_param
named_param_ok [] spelled p e ne h = absurd (ne (sym e))
named_param_ok (c ∷ name) spelled p e ne h =
    rw (h, named_param) (ap (λ n. ok (record { name = n; type = p.type })) e)

read_param-Spells :
    {name spelled : Text} {p : Param} (rest : Text)
    → Spells name spelled p
    → read_param (name ++ b':' ∷ (spelled ++ b'}' ∷ rest)) ≡ ok (p, rest)
unfolding read_param
read_param-Spells {name} {spelled} {p} rest h =
    ap (λ s. param_braces (cut s b'}')) (sym (append_assoc name (b':' ∷ spelled) (b'}' ∷ rest)))
    ∙ ap param_braces (cut-append (name ++ b':' ∷ spelled) b'}' rest h.no_brace)
    ∙ (rw
        (
          cut-append name b':' spelled h.no_colon,
          named_param_ok (trim_space name) spelled p h.trimmed h.named h.typed,
          param_body,
        )
        refl)

brace_opens_nothing : (s : Text) → opens_comment b'{' s ≡ false
brace_opens_nothing [] = refl
brace_opens_nothing (d ∷ s) = refl

module _ {ℓ} {S : Type ℓ} (on_text : Text → S → S) (on_param : Param → S → Result ScanError S) where
  -- The callbacks called for each piece.
  abbrev pub run : Text → List Piece → S → Result ScanError S
  run text [] st = ok (emit_text on_text on_param text st)
  run text (byte c ∷ ps) st = run (text ++ c ∷ []) ps st
  run text (literal t ∷ ps) st = run (text ++ t) ps st
  run text (comment t ∷ ps) st = run (text ++ t) ps st
  run text (param name spelled p ∷ ps) st =
      on_param p (emit_text on_text on_param text st) >>= λ st'. run [] ps st'

  scan_loop-IsComment :
      (f : ℕ) {t rest : Text} (text : Text) (st : S)
      → IsComment t rest
      → (0 < length t)
        × (scan_loop on_text on_param (suc f) (t ++ rest) text st
            ≡ scan_loop on_text on_param f rest (text ++ t) st)
  scan_loop-IsComment f text st (line {body} {rest} h) = (
    omega arith,
    scan_loop_comment on_text on_param f b'-' (b'-' ∷ (body ++ b'\n' ∷ rest)) text st
        (skip_comment-IsComment (line h)),
  )
  scan_loop-IsComment f {rest = rest} text st (block {body} b) = (
    omega arith,
    scan_loop_comment on_text on_param f b'/' (b'*' ∷ (body ++ rest)) text st
        (skip_comment-IsComment (block b)),
  )

  scan_loop-render :
      {ps : List Piece} (f : ℕ) (text : Text) (st : S)
      → IsQuery ps
      → length (render ps) < f
      → scan_loop on_text on_param f (render ps) text st ≡ run text ps st
  scan_loop-render zero text st q lt = absurd (omega arith)
  scan_loop-render (suc f) text st done lt = unfold scan_loop in refl
  scan_loop-render (suc f) text st (of_byte {c} {ps} nq nb nc q) lt =
      scan_loop_byte on_text on_param f c (render ps) text st (skip_comment-none c _ nc)
        (skip_literal-none c _ nq) nb
      ∙ scan_loop-render f _ st q (omega arith)
  scan_loop-render (suc f) text st (of_literal {ps = ps} (IsLiteral.literal {q = c} {body} hq b) q)
        lt =
      scan_loop_literal on_text on_param f c (body ++ render ps) text st
        (skip_comment-none c _ (opens_comment_quote c _ hq))
        (skip_literal-IsLiteral (render ps) (IsLiteral.literal hq b))
      ∙ scan_loop-render f _ st q (omega (arith, length-append body (render ps)))
  scan_loop-render (suc f) text st (of_comment {t} {ps} k q) lt =
      let (some_byte, e) = scan_loop-IsComment f text st k in
      e ∙ scan_loop-render f _ st q (omega (arith, length-append t (render ps)))
  scan_loop-render (suc f) text st (of_param {name} {spelled} {p} {ps} h q) lt =
      let inner = b':' ∷ (spelled ++ b'}' ∷ render ps) in
      let opened =
        scan_loop_param on_text on_param f b'{' (name ++ inner) text st
          (skip_comment-none b'{' _ (brace_opens_nothing (name ++ inner)))
          (skip_literal-none b'{' _ refl) refl in
      opened
      ∙ rw (read_param-Spells (render ps) h) (
          >>=-cong (on_param p (emit_text on_text on_param text st)) λ st'.
            scan_loop-render f [] st' q
              (omega (arith, length-append name inner, length-append spelled (b'}' ∷ render ps))))

  -- `scanSQL` calls `onText` for the text between two parameters and `onParam` for each of them, in the
  -- order of the query.
  pub scan_sql-render :
      {ps : List Piece} (st : S)
      → IsQuery ps
      → scan_sql on_text on_param (render ps) st ≡ run [] ps st
  unfolding scan_sql
  scan_sql-render {ps} st q = scan_loop-render (suc (length (render ps))) [] st q (omega arith)
