-- ===== src/Parser/Query.antt =====
-- `parseQuery` and `parsePggenArg` of internal/parser/parser.go, with the queries of
-- internal/ast/ast.go.
pub mod Ordered
pub mod Within
pub mod Collect
pub mod Loop
pub mod Sound
use pggen.Prelude.{
  ℕ, zero, suc, ◌+◌, ◌-◌, Bool, true, false, not, ◌&&◌, ◌||◌, List, [], ◌∷◌, ◌++◌, Option, none,
  some, ◌==◌, leb, if◌then◌else◌, length, take, drop,
}
use pggen.Prelude.Result.{Result, ok, err, ◌>>=◌}
use pggen.Prelude.Text.{Text, codes, eq, has_prefix, is_empty}
use pggen.Scanner.{Token, illegal, eof, line_comment, string, query_fragment, semicolon, same_token}
use pggen.Parser.Prepare.{ArgPos, Placeholder, slice_of, prepare_sql}
use pggen.Parser.Pragmas.{Pragmas, parse_pragmas}
use pggen.Parser.Annotation.{ResultKind, Annotation, find_annotation}
use pggen.Parser.State.{
  LineComment, CommentGroup, Message, unterminated_query, wants_string, wants_single_quotes,
  wants_fragment, wants_paren, wants_token, no_comment, no_annotation, bad_pragma, State, Stop,
  bailout, panicked, out_of_fuel, report, next,
}

-- `SourceQuery`, without the fields that only the fan-out of a paginated query sets.
pub record SourceQuery : Type 0 where
  pub name : Text
  pub doc : CommentGroup
  pub start : ℕ
  pub source_sql : Text
  pub prepared_sql : Text
  pub param_names : List Text
  pub result_kind : ResultKind
  pub pragmas : Pragmas
  pub semi : ℕ

pub data Query : Type 0 where
  bad_query : ℕ → ℕ → Query
  source_query : SourceQuery → Query

-- `strings.HasSuffix(s, suffix)`.
unfoldable pub has_suffix : Text → Text → Bool
unfolding eq
has_suffix [] suffix = is_empty suffix
has_suffix (c ∷ s) suffix = eq (c ∷ s) suffix || has_suffix s suffix

-- `strings.LastIndex(s, substr)`; `none` for -1.
unfoldable pub last_index : Text → Text → Option ℕ
unfolding has_prefix
last_index [] substr = if is_empty substr then some 0 else none
last_index (c ∷ s) substr = elim (last_index s substr) [
  | some i ↦ some (suc i)
  | none ↦ if has_prefix (c ∷ s) substr then some 0 else none
]

-- The start of the call in a fragment, counted from zero.
unfoldable pub arg_start : State → ℕ
unfolding last_index
arg_start st = elim (last_index st.lit (codes "pggen")) [
  | none ↦ st.pos - 2
  | some i ↦ st.pos + i - 1
]

-- Whether a literal is in single quotes, with a character between them.
unfoldable pub in_single_quotes : Text → Bool
unfolding has_suffix has_prefix
in_single_quotes lit =
    leb 3 (length lit) && has_prefix lit (codes "'") && has_suffix lit (codes "'")

-- `lit[1 : len(lit)-1]`.
abbrev pub unquoted : Text → Text
unquoted lit = take (length lit - 2) (drop 1 lit)

-- `hasPggenArg`.
unfoldable pub has_pggen_arg : Text → Bool
unfolding has_suffix
has_pggen_arg lit = has_suffix lit (codes "pggen.arg(") || has_suffix lit (codes "pggen.arg (")

-- What `parsePggenArg` returns, with the state that it leaves.
pub data Parsed : Type 0 where
  found : ArgPos → State → Parsed
  failed : State → Parsed

-- What the loop of `parseQuery` comes to: the arguments at the semicolon, or a bad query.
pub data Collected : Type 0 where
  collected : List ArgPos → State → Collected
  spoiled : State → Collected

-- `arg.lo -= int(pos) - 1; arg.hi -= int(pos) - 1`.
abbrev pub relative : ℕ → ArgPos → ArgPos
relative pos arg = record arg { lo = arg.lo - (pos - 1); hi = arg.hi - (pos - 1) }

module _ (is_unicode_letter : ℕ → Bool) (src : Text) where
  -- An error, and the end of the function that found it.
  abbrev pub refuse : Message → State → Result Stop Parsed
  refuse message st = report src st.pos message st >>= λ st'. ok (failed st')

  abbrev pub spoil : Message → State → Result Stop Collected
  spoil message st = report src st.pos message st >>= λ st'. ok (spoiled st')

  -- The part of `parsePggenArg` behind the string literal; `st` is the state at the literal.
  unfoldable pub arg_close : ℕ → Text → State → Result Stop Parsed
  unfolding has_prefix report
  arg_close lo name st =
      if not (same_token st.tok query_fragment)
      then refuse wants_fragment st
      else if not (has_prefix st.lit (codes ")"))
      then refuse wants_paren st
      else ok (found (record { lo = lo; hi = st.pos; name = name }) st)

  unfoldable pub arg_name : ℕ → State → Result Stop Parsed
  unfolding arg_close next in_single_quotes report
  arg_name lo st =
      let closing = next is_unicode_letter src st >>= λ st'. arg_close lo (unquoted st.lit) st' in
      if not (same_token st.tok string)
      then refuse wants_string st
      else if not (in_single_quotes st.lit)
      then refuse wants_single_quotes st
      else closing

  -- `parsePggenArg()`.
  unfoldable pub parse_pggen_arg : State → Result Stop Parsed
  unfolding arg_start next arg_name
  parse_pggen_arg st = next is_unicode_letter src st >>= λ st'. arg_name (arg_start st) st'

  -- The error of a query without a semicolon, whose message shows `p.src[pos:p.pos]`: a slice up to
  -- the capacity of the source, `cap`, which panics if it is out of range.
  abbrev pub unterminated : ℕ → ℕ → State → Result Stop Collected
  unterminated cap pos st =
      if leb pos st.pos && leb st.pos cap then spoil unterminated_query st else err panicked

  -- The loop of `parseQuery`; `pos` is where the query starts.
  unfoldable pub query_loop : ℕ → ℕ → ℕ → List ArgPos → State → Result Stop Collected
  unfolding parse_pggen_arg next report has_pggen_arg
  query_loop cap zero pos names st = err out_of_fuel
  query_loop cap (suc f) pos names st =
      let onward = next is_unicode_letter src st >>= λ st'. query_loop cap f pos names st' in
      let read = parse_pggen_arg st >>= λ r. elim r [
        | found arg st' ↦ query_loop cap f pos (names ++ relative pos arg ∷ []) st'
        | failed st' ↦ ok (spoiled st')
      ] in
      if same_token st.tok semicolon
      then ok (collected names st)
      else if same_token st.tok eof || same_token st.tok illegal
      then unterminated cap pos st
      else if same_token st.tok query_fragment && has_pggen_arg st.lit
      then read
      else onward

  -- The last comment of a group.
  abbrev pub last_comment : CommentGroup → Option LineComment
  last_comment [] = none
  last_comment (c ∷ []) = some c
  last_comment (c ∷ d ∷ list) = last_comment (d ∷ list)

  -- A bad query from `pos`, with an error there.
  abbrev pub reject : ℕ → Message → State → Result Stop (Query × State)
  reject pos message st = report src pos message st >>= λ st'. ok (bad_query pos st'.pos, st')

  -- The query's node, once its annotation is read.
  unfoldable pub build_query :
      Placeholder
      → ℕ
      → ℕ
      → CommentGroup
      → Annotation
      → Text
      → List ArgPos
      → State
      → Result Stop (Query × State)
  unfolding parse_pragmas prepare_sql report
  build_query ph pos semi doc a sql names st = elim (parse_pragmas a.args) [
    | err why ↦ reject pos (bad_pragma why) st
    | ok pragmas ↦ elim (prepare_sql ph sql names) [
      | none ↦ err panicked
      | some (prepared, params) ↦ ok (
        source_query (record {
          name = a.name;
          doc = doc;
          start = pos;
          source_sql = sql;
          prepared_sql = prepared;
          param_names = params;
          result_kind = a.kind;
          pragmas = pragmas;
          semi = semi;
        }),
        st,
      )
    ]
  ]

  -- The part of `parseQuery` that extracts the annotations.
  unfoldable pub annotate :
      Placeholder
      → ℕ
      → ℕ
      → Option CommentGroup
      → Text
      → List ArgPos
      → State
      → Result Stop (Query × State)
  unfolding build_query find_annotation report
  annotate ph pos semi none sql names st = reject pos no_comment st
  annotate ph pos semi (some doc) sql names st = elim (last_comment doc) [
    | none ↦ reject pos no_comment st
    | some last ↦ elim (find_annotation last.text) [
      | none ↦ reject pos (no_annotation last.text) st
      | some a ↦ build_query ph pos semi doc a sql names st
    ]
  ]

  -- The part of `parseQuery` behind its loop: the semicolon, and the query's text with it.
  unfoldable pub finish_query :
      Placeholder → ℕ → Option CommentGroup → Collected → Result Stop (Query × State)
  unfolding annotate slice_of next
  finish_query ph pos doc (spoiled st) = ok (bad_query pos st.pos, st)
  finish_query ph pos doc (collected names st) = next is_unicode_letter src st >>= λ st'.
      elim (slice_of src (pos - 1) st.pos) [
        | none ↦ err panicked
        | some sql ↦ annotate ph pos st.pos doc sql names st'
      ]

  -- `parseQuery()`.
  unfoldable pub parse_query : ℕ → Placeholder → State → Result Stop (Query × State)
  unfolding query_loop finish_query
  parse_query cap ph st = query_loop cap (suc (suc (length st.ahead))) st.pos [] st >>= λ c.
      finish_query ph st.pos st.lead_comment c
