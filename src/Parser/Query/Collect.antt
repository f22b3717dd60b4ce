-- ===== src/Parser/Query/Collect.antt =====
-- The loop of `parseQuery` comes to an end, with its arguments in order.
use pggen.Prelude.{
  ℕ, suc, ◌≤◌, ◌<◌, ◌≡◌, refl, ap, ◌∙◌, ◌≢◌, Bool, true, false, not, List, [], arith,
}
use pggen.Prelude.Result.{ok}
use pggen.Prelude.Text.{Text, codes, has_prefix}
use pggen.Scanner.{Token, string, query_fragment, same_token, same_token-true}
use pggen.Parser.State.{
  State, SyntaxError, Message, wants_string, wants_single_quotes, wants_fragment, wants_paren,
}
use pggen.Parser.State.Reach.{ends, left}
use pggen.Parser.State.Advance.{Ends, returns, Ends-bind, Ends-if}
use pggen.Parser.Query.{
  Parsed, found, failed, arg_start, in_single_quotes, unquoted, refuse, arg_close, arg_name,
  parse_pggen_arg,
}
use pggen.Parser.Query.Within.{Within, Within-more, next-Within, report-Within}

-- What `parsePggenArg` promises: an argument that ends at a fragment with a closing parenthesis, behind
-- an offset, or an error.
pub data IsParsed (src : Text) (n pos : ℕ) (errors : List SyntaxError) (lo low : ℕ)
    : Parsed → Type 0 where
  is_found :
      {name : Text} {st : State}
      → Within src n pos errors st
      → low < st.pos
      → has_prefix st.lit (codes ")") ≡ true
      → IsParsed src n pos errors lo low (found (record { lo = lo; hi = st.pos; name = name }) st)
  is_failed :
      {st : State}
      → Within src n pos errors st
      → st.errors ≢ []
      → IsParsed src n pos errors lo low (failed st)

live_same : (tok t : Token) → ends t ≡ false → same_token tok t ≡ true → ends tok ≡ false
live_same tok t e h = ap ends (same_token-true tok t h) ∙ e

not-false : (b : Bool) → not b ≡ false → b ≡ true
not-false true e = refl
not-false false e = cc

module _ (is_unicode_letter : ℕ → Bool) (src : Text) (pos : ℕ) (errors : List SyntaxError) where
  refuse-IsParsed :
      (n lo low : ℕ) (message : Message) (st : State)
      → Within src n pos errors st
      → Ends (IsParsed src n pos errors lo low) (refuse is_unicode_letter src message st)
  refuse-IsParsed n lo low message st h =
      Ends-bind (λ st'. ok (failed st')) (report-Within src n pos errors st.pos message st h)
        (λ st' h'. returns (is_failed h'.0 h'.1))

  arg_close-IsParsed :
      (n lo low : ℕ) (name : Text) (st : State)
      → Within src n pos errors st
      → low < st.pos
      → Ends (IsParsed src n pos errors lo low) (arg_close is_unicode_letter src lo name st)
  unfolding arg_close
  arg_close-IsParsed n lo low name st h after =
      Ends-if (not (same_token st.tok query_fragment))
        (λ e. refuse-IsParsed n lo low wants_fragment st h)
        (λ e.
          Ends-if (not (has_prefix st.lit (codes ")")))
            (λ e'. refuse-IsParsed n lo low wants_paren st h)
            (λ e'. returns (is_found h after (not-false (has_prefix st.lit (codes ")")) e'))))

  arg_name-IsParsed :
      (n lo low : ℕ) (st : State)
      → Within src (suc n) pos errors st
      → left st.tok st.ahead ≤ n
      → low < st.pos
      → Ends (IsParsed src n pos errors lo low) (arg_name is_unicode_letter src lo st)
  unfolding arg_name
  arg_name-IsParsed n lo low st h less after =
      let h' : Within src n pos errors st =
        (h.0, record { less = less; from = h.1.from; kept = h.1.kept }) in
      Ends-if (not (same_token st.tok string)) (λ e. refuse-IsParsed n lo low wants_string st h')
        (λ e.
          Ends-if (not (in_single_quotes st.lit))
            (λ e'. refuse-IsParsed n lo low wants_single_quotes st h')
            (λ e'.
              Ends-bind (λ st'. arg_close is_unicode_letter src lo (unquoted st.lit) st')
                (next-Within is_unicode_letter src n pos errors st
                  (live_same st.tok string refl (not-false (same_token st.tok string) e)) h)
                (λ st' (h', later).
                  arg_close-IsParsed n lo low (unquoted st.lit) st' h'
                    (omega (arith, later, h.0.spelled, after)))))

  pub parse_pggen_arg-IsParsed :
      (n : ℕ) (st : State)
      → ends st.tok ≡ false
      → Within src (suc n) pos errors st
      → Ends
          (IsParsed src n pos errors (arg_start st) st.offset)
          (parse_pggen_arg is_unicode_letter src st)
  unfolding parse_pggen_arg
  parse_pggen_arg-IsParsed n st live h =
      Ends-bind (λ st'. arg_name is_unicode_letter src (arg_start st) st')
        (next-Within is_unicode_letter src n pos errors st live h)
        (λ st' (h', later).
          arg_name-IsParsed n (arg_start st) st.offset st'
            (Within-more src n (suc n) pos errors st' (omega arith) h') h'.1.less later)
