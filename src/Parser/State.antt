-- ===== src/Parser/State.antt =====
-- The state of the parser of internal/parser/parser.go, its errors, and `next`, with the comments of
-- internal/ast/ast.go. A position is one more than the count of the characters in front of it, as in a
-- file set with one file; zero is no position.
pub mod Reach
pub mod Advance
use pggen.Prelude.{
  ℕ, zero, suc, ◌+◌, Bool, true, false, List, [], ◌∷◌, ◌++◌, Option, none, some, ◌==◌, ◌&&◌, leb,
  if◌then◌else◌, length,
}
use pggen.Prelude.Result.{Result, ok, err, ◌>>=◌}
use pggen.Prelude.Text.{Text}
use pggen.Scanner.{
  Token, illegal, eof, line_comment, block_comment, string, quoted_ident, query_fragment, semicolon,
  Scanned, token, ended, skip_whitespace, scan_token, same_token,
}
use pggen.Parser.Pragmas.{PragmaError}

pub record LineComment : Type 0 where
  pub start : ℕ
  pub text : Text

abbrev pub CommentGroup : Type 0
CommentGroup = List LineComment

-- The messages of the errors.
pub data Message : Type 0 where
  scan_error unterminated_query : Message
  wants_string wants_single_quotes wants_fragment wants_paren : Message
  wants_token : Token → Token → Message
  no_comment : Message
  no_annotation : Text → Message
  bad_pragma : PragmaError → Message

pub record SyntaxError : Type 0 where
  pub line : ℕ
  pub message : Message

pub record State : Type 0 where
  pub ahead : Text
  pub offset : ℕ
  pub pos : ℕ
  pub tok : Token
  pub lit : Text
  pub comments : List CommentGroup
  pub lead_comment : Option CommentGroup
  pub errors : List SyntaxError

-- Why a run stops early: the panic `bailout`, another panic, or no fuel.
pub data Stop : Type 0 where
  bailout : State → Stop
  panicked : Stop
  out_of_fuel : Stop

-- The newlines among the first characters of a file that begin a line; one at the end of the file does
-- not, since `AddLine` ignores an offset at the file's end.
unfoldable pub newlines : ℕ → Text → ℕ
newlines zero s = 0
newlines (suc n) [] = 0
newlines (suc n) (c ∷ []) = 0
newlines (suc n) (c ∷ d ∷ s) = (if c == b'\n' then 1 else 0) + newlines n (d ∷ s)

-- `file.Line(pos)`.
unfoldable pub line_of : Text → ℕ → ℕ
unfolding newlines
line_of src zero = 0
line_of src (suc n) = suc (newlines n src)

abbrev pub last_line : List SyntaxError → Option ℕ
last_line [] = none
last_line (e ∷ []) = some e.line
last_line (e ∷ e' ∷ es) = last_line (e' ∷ es)

abbrev pub same_line : Option ℕ → ℕ → Bool
same_line none line = false
same_line (some l) line = l == line

-- `errors.Add(pos, msg)`.
abbrev pub add_error : Text → ℕ → Message → State → State
add_error src pos message st = record st {
  errors = st.errors ++ record { line = line_of src pos; message = message } ∷ [];
}

-- `error(pos, msg)`.
unfoldable pub report : Text → ℕ → Message → State → Result Stop State
unfolding line_of
report src pos message st =
    if same_line (last_line st.errors) (line_of src pos)
    then ok st
    else if leb 11 (length st.errors)
    then err (bailout st)
    else ok (add_error src pos message st)

-- The token that `Scan` returned, behind the blanks that stood at `offset`. The handler of the scanner's
-- errors adds that of an illegal token.
unfoldable pub take_token : Text → ℕ → Scanned → State → State
unfolding line_of
take_token src start (token tok used lit rest) st = record st {
  ahead = rest;
  offset = start + length used;
  pos = suc start;
  tok = tok;
  lit = lit;
}
take_token src start (ended illegal) st =
    add_error src (suc start) scan_error
      (record st { ahead = []; offset = start; pos = suc start; tok = illegal; lit = [] })
take_token src start (ended tok) st = record st {
  ahead = [];
  offset = start;
  pos = suc start;
  tok = tok;
  lit = [];
}

-- `unicode.IsLetter`, of the characters that are not ASCII, and the file.
module _ (is_unicode_letter : ℕ → Bool) (src : Text) where
  -- `next0()`.
  unfoldable pub next0 : State → State
  unfolding take_token skip_whitespace scan_token
  next0 st =
      take_token src (st.offset + length (skip_whitespace st.ahead).0)
        (scan_token is_unicode_letter (skip_whitespace st.ahead).1) st

  -- `consumeComment()`.
  abbrev pub comment_of : State → LineComment
  comment_of st = record { start = st.pos; text = st.lit }

  -- The loop of `consumeCommentGroup(n)`; the result has the line on which the last comment ends.
  unfoldable pub group_loop :
      ℕ → ℕ → CommentGroup → ℕ → State → Result Stop (CommentGroup × ℕ × State)
  unfolding next0 line_of
  group_loop zero n list end_line st = err out_of_fuel
  group_loop (suc f) n list end_line st =
      let later = group_loop f n (list ++ comment_of st ∷ []) (line_of src st.pos) (next0 st) in
      if same_token st.tok line_comment && leb (line_of src st.pos) (end_line + n)
      then later
      else ok (list, end_line, st)

  -- `consumeCommentGroup(n)`.
  unfoldable pub consume_comment_group : ℕ → State → Result Stop (CommentGroup × ℕ × State)
  unfolding group_loop line_of
  consume_comment_group n st =
      group_loop (suc (suc (length st.ahead))) n [] (line_of src st.pos) st
      >>= λ (list, end_line, st').
          ok (list, end_line, record st' { comments = st'.comments ++ list ∷ [] })

  -- The loop of `next()` over the comments that follow.
  unfoldable pub groups_loop : ℕ → CommentGroup → ℕ → State → Result Stop (CommentGroup × ℕ × State)
  unfolding consume_comment_group
  groups_loop zero comment end_line st = err out_of_fuel
  groups_loop (suc f) comment end_line st =
      let later = consume_comment_group 1 st >>= λ (comment', end_line', st').
      groups_loop f comment' end_line' st' in
      if same_token st.tok line_comment then later else ok (comment, end_line, st)

  -- The comment on the line of the token in front of it, if there is one.
  unfoldable pub trailing_group : ℕ → State → Result Stop (CommentGroup × ℕ × State)
  unfolding consume_comment_group line_of
  trailing_group prev st =
      if line_of src st.pos == line_of src prev then consume_comment_group 0 st else ok ([], 0, st)

  -- The end of `next()`: whether the last group leads the next token.
  abbrev pub set_lead : CommentGroup × ℕ × State → State
  set_lead (comment, end_line, st) =
      if suc end_line == line_of src st.pos then record st { lead_comment = some comment } else st

  -- `next()`.
  unfoldable pub next : State → Result Stop State
  unfolding next0 trailing_group groups_loop line_of
  next st =
      let st0 = next0 (record st { lead_comment = none }) in
      let commented = trailing_group st.pos st0 >>= λ (comment, end_line, st1).
      groups_loop (suc (suc (length st1.ahead))) comment end_line st1 >>= λ r. ok (set_lead r) in
      if same_token st0.tok line_comment then commented else ok st0
