-- ===== src/Parser/File.antt =====
-- `parseFile` of internal/parser/parser.go up to the end of its loop, behind which it replaces the
-- paginated queries by their variants, and `init`.
pub mod Sound
use pggen.Prelude.{
  ℕ, zero, suc, ◌+◌, ◌||◌, Bool, true, false, List, [], ◌∷◌, ◌++◌, Option, none, some, ◌==◌,
  if◌then◌else◌, length,
}
use pggen.Prelude.Result.{Result, ok, err, ◌>>=◌}
use pggen.Prelude.Text.{Text}
use pggen.Scanner.{Token, illegal, eof, same_token}
use pggen.Parser.Prepare.{Placeholder}
use pggen.Parser.State.{
  CommentGroup, SyntaxError, State, Stop, bailout, panicked, out_of_fuel, next,
}
use pggen.Parser.Query.{Query, parse_query}

-- `Scanner.Init`: a byte order mark at the beginning of a file is ignored.
unfoldable pub skip_bom : Text → ℕ × Text
skip_bom [] = (0, [])
skip_bom (c ∷ s) = if c == 0xFEFF then (1, s) else (0, c ∷ s)

-- The state before the first token.
unfoldable pub initial : Text → State
unfolding skip_bom
initial src = record {
  ahead = (skip_bom src).1;
  offset = (skip_bom src).0;
  pos = 0;
  tok = illegal;
  lit = [];
  comments = [];
  lead_comment = none;
  errors = [];
}

-- `cap` is the capacity of the source.
module _ (is_unicode_letter : ℕ → Bool) (src : Text) (cap : ℕ) (ph : Placeholder) where
  -- The loop of `parseFile`.
  unfoldable pub file_loop : ℕ → List Query → State → Result Stop (List Query × State)
  unfolding parse_query
  file_loop zero queries st = err out_of_fuel
  file_loop (suc f) queries st =
      let later = parse_query is_unicode_letter src cap ph st >>= λ (q, st').
      file_loop f (queries ++ q ∷ []) st' in
      if same_token st.tok eof || same_token st.tok illegal then ok (queries, st) else later

  -- `init`, and `parseFile` up to its loop's end: the queries of the source, before those that are
  -- paginated are replaced by their variants; none where an error is met at the first token.
  unfoldable pub parse_source_queries : Result Stop (List Query × State)
  unfolding next file_loop initial
  parse_source_queries = next is_unicode_letter src (initial src) >>= λ st. elim st.errors [
    | e ∷ es ↦ ok ([], st)
    | [] ↦ file_loop (suc (suc (length st.ahead))) [] st
  ]
