-- ===== src/Parser/Query/Sound.antt =====
-- What `parseQuery` promises: it ends without a panic, with a query of the file or with an error.
use pggen.Prelude.{
  ℕ, zero, suc, ◌-◌, ◌≤◌, ◌<◌, ◌≡◌, refl, ap, ◌∙◌, ◌≢◌, Bool, false, List, [], ◌∷◌, Option, none,
  some, arith, length, take, drop, inl,
}
use pggen.Prelude.Result.{Result, ok, err}
use pggen.Prelude.Text.{Text}
use pggen.Parser.Prepare.{ArgPos, Placeholder, slice_of, prepare_sql}
use pggen.Parser.Pragmas.{Pragmas, PragmaError, parse_pragmas}
use pggen.Parser.Pragmas.Sound.{IsPragmas, parse_pragmas-IsPragmas}
use pggen.Parser.Annotation.{Annotation, find_annotation}
use pggen.Parser.State.{
  CommentGroup, LineComment, State, SyntaxError, Message, no_comment, no_annotation, bad_pragma,
  panicked,
}
use pggen.Parser.State.Reach.{ends, IsState, left_most}
use pggen.Parser.State.Advance.{Ends, returns, Ends-bind}
use pggen.Parser.Query.{
  SourceQuery, Query, bad_query, source_query, Collected, reject, last_comment, build_query,
  annotate, finish_query, parse_query,
}
use pggen.Parser.Query.Ordered.{Ordered, Ordered-more, slice_of-within, prepare_sql-Ordered}
use pggen.Parser.Query.Within.{Within, next-Within, report-Within}
use pggen.Parser.Query.Loop.{
  Placed-at, IsCollected, is_collected, is_spoiled, query_loop-IsCollected,
}

-- A query is a stretch of the file, whose calls of pggen.arg are prepared, with pragmas that are valid.
pub record IsSource (src : Text) (ph : Placeholder) (q : SourceQuery) : Type 0 where
  pub in_order : (1 ≤ q.start) × (q.start ≤ q.semi) × (q.semi ≤ length src)
  pub stretch : q.source_sql ≡ take (q.semi - (q.start - 1)) (drop (q.start - 1) src)
  pub prepared :
      (args : List ArgPos) × Ordered 0 args (length q.source_sql)
      × (prepare_sql ph q.source_sql args ≡ some (q.prepared_sql, q.param_names))
  pub valid : IsPragmas q.pragmas

-- A query of the file, or a bad one where an error is recorded.
pub data IsRead (src : Text) (ph : Placeholder) (errors : List SyntaxError) : Query → Type 0 where
  bad : {from to : ℕ} → errors ≢ [] → IsRead src ph errors (bad_query from to)
  source : {q : SourceQuery} → IsSource src ph q → IsRead src ph errors (source_query q)

pub IsRead-later :
    (src : Text) (ph : Placeholder) (errors errors' : List SyntaxError) (q : Query)
    → (errors ≢ [] → errors' ≢ [])
    → IsRead src ph errors q
    → IsRead src ph errors' q
IsRead-later src ph errors errors' q kept (bad ne) = bad (kept ne)
IsRead-later src ph errors errors' q kept (source h) = source h

abbrev pub Read : Text → Placeholder → ℕ → ℕ → List SyntaxError → Query × State → Type 0
Read src ph n pos errors r = Within src n pos errors r.1 × IsRead src ph r.1.errors r.0

length-take : (k : ℕ) (s : Text) → k ≤ length s → length (take k s) ≡ k
length-take zero s le = refl
length-take (suc k) [] le = ground arith
length-take (suc k) (c ∷ s) le = ap suc (length-take k s (omega arith))

length-drop : (k : ℕ) (s : Text) → k ≤ length s → length (drop k s) ≡ length s - k
length-drop zero s le = omega arith
length-drop (suc k) [] le = ground arith
length-drop (suc k) (c ∷ s) le = length-drop k s (omega arith) ∙ omega arith

-- The length of a slice.
sliced :
    (src : Text) (lo hi : ℕ)
    → lo ≤ hi
    → hi ≤ length src
    → length (take (hi - lo) (drop lo src)) ≡ hi - lo
sliced src lo hi le le' =
    length-take (hi - lo) (drop lo src) (omega (arith, length-drop lo src (omega (arith, le, le'))))

module _ (is_unicode_letter : ℕ → Bool) (src : Text) (ph : Placeholder) (n pos : ℕ)
    (errors : List SyntaxError) where
  reject-Read :
      (message : Message) (st : State)
      → Within src n pos errors st
      → Ends (Read src ph n pos errors) (reject is_unicode_letter src pos message st)
  reject-Read message st h =
      Ends-bind (λ st'. ok (bad_query pos st'.pos, st'))
        (report-Within src n pos errors pos message st h) (λ st' h'. returns (h'.0, bad h'.1))

  module _ (semi : ℕ) (one : 1 ≤ pos) (le : pos ≤ semi) (inside : semi ≤ length src)
      (names : List ArgPos) where
    -- The query's text.
    abbrev text : Text
    text = take (semi - (pos - 1)) (drop (pos - 1) src)

    build_query-Read :
        (doc : CommentGroup) (a : Annotation) (st : State)
        → Ordered 0 names (length text)
        → Within src n pos errors st
        → Ends
            (Read src ph n pos errors)
            (build_query is_unicode_letter src ph pos semi doc a text names st)
    unfolding build_query
    build_query-Read doc a st ordered h =
        go (parse_pragmas a.args) (prepare_sql ph text names) refl refl
          (prepare_sql-Ordered ph text names ordered)
      where
        go :
            (r : Result PragmaError Pragmas) (o : Option (Text × List Text))
            → parse_pragmas a.args ≡ r
            → prepare_sql ph text names ≡ o
            → o ≢ none
            → Ends (Read src ph n pos errors) (elim r [
              | err why ↦ reject is_unicode_letter src pos (bad_pragma why) st
              | ok pragmas ↦ elim o [
                | none ↦ err panicked
                | some (prepared, params) ↦ ok (
                  source_query (record {
                    name = a.name;
                    doc = doc;
                    start = pos;
                    source_sql = text;
                    prepared_sql = prepared;
                    param_names = params;
                    result_kind = a.kind;
                    pragmas = pragmas;
                    semi = semi;
                  }),
                  st,
                )
              ]
            ])
        go (err why) o e e' ne = reject-Read (bad_pragma why) st h
        go (ok pragmas) none e e' ne = absurd (ne refl)
        go (ok pragmas) (some (prepared, params)) e e' ne = returns (
          h,
          source (record {
            in_order = (one, le, inside);
            stretch = refl;
            prepared = (names, ordered, e');
            valid = (parse_pragmas-IsPragmas a.args e).0;
          }),
        )

    annotate-Read :
        (doc : Option CommentGroup) (st : State)
        → Ordered 0 names (length text)
        → Within src n pos errors st
        → Ends
            (Read src ph n pos errors)
            (annotate is_unicode_letter src ph pos semi doc text names st)
    unfolding annotate
    annotate-Read none st ordered h = reject-Read no_comment st h
    annotate-Read (some doc) st ordered h = commented (last_comment is_unicode_letter src doc)
      where
        annotated :
            (text' : Text) (a : Option Annotation)
            → Ends (Read src ph n pos errors) (elim a [
              | none ↦ reject is_unicode_letter src pos (no_annotation text') st
              | some a ↦ build_query is_unicode_letter src ph pos semi doc a text names st
            ])
        annotated text' none = reject-Read (no_annotation text') st h
        annotated text' (some a) = build_query-Read doc a st ordered h

        commented :
            (last : Option LineComment)
            → Ends (Read src ph n pos errors) (elim last [
              | none ↦ reject is_unicode_letter src pos no_comment st
              | some last ↦ elim (find_annotation last.text) [
                | none ↦ reject is_unicode_letter src pos (no_annotation last.text) st
                | some a ↦ build_query is_unicode_letter src ph pos semi doc a text names st
              ]
            ])
        commented none = reject-Read no_comment st h
        commented (some last) = annotated last.text (find_annotation last.text)

  finish_query-Read :
      (doc : Option CommentGroup) (c : Collected)
      → 1 ≤ pos
      → IsCollected src n pos errors c
      → Ends (Read src ph n pos errors) (finish_query is_unicode_letter src ph pos doc c)
  unfolding finish_query
  finish_query-Read doc c one (is_spoiled {st} h ne) = returns (h, bad ne)
  finish_query-Read doc c one (is_collected {names} {st} h live p) =
      let le : pos - 1 ≤ st.pos = omega (arith, h.1.from) in
      let inside : st.pos ≤ length src = omega (arith, h.0.inside, h.0.live live) in
      let at = Placed-at pos names st.pos st.lit p in
      let short : p.bound ≤ length (text st.pos one h.1.from inside names) =
        omega (arith, sliced src (pos - 1) st.pos le inside, at) in
      Ends-bind
        (λ st'. elim (slice_of src (pos - 1) st.pos) [
          | none ↦ err panicked
          | some sql ↦ annotate is_unicode_letter src ph pos st.pos doc sql names st'
        ])
        (next-Within is_unicode_letter src n pos errors st live h)
        (λ st' (hw, later). rw (slice_of-within src (pos - 1) st.pos le inside) (
          annotate-Read st.pos one h.1.from inside names doc st'
            (Ordered-more 0 names p.bound _ p.ordered short) hw))

-- `parseQuery`, from a token that does not end the file.
pub parse_query-Read :
    (is_unicode_letter : ℕ → Bool) (src : Text) (ph : Placeholder) (cap : ℕ) (st : State)
    → length src < cap
    → ends st.tok ≡ false
    → 1 ≤ st.pos
    → IsState src st
    → Ends
        (Read src ph (length st.ahead) st.pos st.errors)
        (parse_query is_unicode_letter src cap ph st)
unfolding parse_query
parse_query-Read is_unicode_letter src ph cap st room live one inv =
    Ends-bind (λ c. finish_query is_unicode_letter src ph st.pos st.lead_comment c)
      (query_loop-IsCollected is_unicode_letter src st.pos st.errors one cap room
        (suc (suc (length st.ahead))) (length st.ahead) [] st
        (inv, record { less = left_most st.tok st.ahead; from = omega arith; kept = λ ne. ne })
        (omega (arith, left_most st.tok st.ahead))
        (record { bound = 0; ordered = omega arith; at_or_before = inl (omega (arith, one)) }))
      (λ c h.
        finish_query-Read is_unicode_letter src ph (length st.ahead) st.pos st.errors
          st.lead_comment c one h)
