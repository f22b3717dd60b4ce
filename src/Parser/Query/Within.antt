-- ===== src/Parser/Query/Within.antt =====
-- The states that `parseQuery` goes through: a bound on what is left, and the errors, which stay.
use pggen.Prelude.{
  ℕ, suc, ◌≤◌, ◌≡◌, ◌≢◌, Bool, true, false, List, [], ◌∷◌, ◌++◌, arith, leb, length, length-append,
}
use pggen.Prelude.Text.{Text}
use pggen.Scanner.{Token}
use pggen.Parser.State.{State, SyntaxError, Message, line_of, last_line, same_line, report, next}
use pggen.Parser.State.Reach.{ends, capacity, capacity_least, IsState, left}
use pggen.Parser.State.Advance.{
  Ends, returns, bails, Ends-map, Ends-if, left-live, capacity-live, next-Ends,
}

-- A state with at most `n` left, at `pos` or behind it, that has kept the errors if there were any.
pub record Bounded (n pos : ℕ) (errors : List SyntaxError) (ahead : Text) (pos' : ℕ) (tok : Token)
    (errors' : List SyntaxError) : Type 0 where
  pub less : left tok ahead ≤ n
  pub from : pos ≤ pos'
  pub kept : errors ≢ [] → errors' ≢ []

abbrev pub Within : Text → ℕ → ℕ → List SyntaxError → State → Type 0
Within src n pos errors st = IsState src st × Bounded n pos errors st.ahead st.pos st.tok st.errors

pub Within-more :
    (src : Text) (n n' pos : ℕ) (errors : List SyntaxError) (st : State)
    → n ≤ n'
    → Within src n pos errors st
    → Within src n' pos errors st
Within-more src n n' pos errors st le (inv, h) =
    (inv, record { less = omega (arith, h.less); from = h.from; kept = h.kept })

pub next-Within :
    (is_unicode_letter : ℕ → Bool) (src : Text) (n pos : ℕ) (errors : List SyntaxError) (st : State)
    → ends st.tok ≡ false
    → Within src (suc n) pos errors st
    → Ends
        (λ (st' : State). Within src n pos errors st' × (suc st.offset ≤ st'.pos))
        (next is_unicode_letter src st)
next-Within is_unicode_letter src n pos errors st live (inv, h) =
    Ends-map
      (λ st' (inv', h'). (
        (
          inv',
          record {
            less = omega (arith, h'.less, h.less, left-live st.tok st.ahead live);
            from = omega (arith, h.from, h'.later, inv.spelled);
            kept = λ ne. h'.kept (h.kept ne);
          },
        ),
        h'.later,
      ))
      (next-Ends is_unicode_letter src st inv.no_nul inv.inside
        (omega (arith, inv.few, capacity-live st.tok live)))

same_line-nonempty :
    (errors : List SyntaxError) (line : ℕ) → same_line (last_line errors) line ≡ true → errors ≢ []
same_line-nonempty [] line e = cc
same_line-nonempty (e' ∷ errors) line e = cc

long_nonempty : (errors : List SyntaxError) → leb 11 (length errors) ≡ true → errors ≢ []
long_nonempty [] e = ground (arith, e)
long_nonempty (e' ∷ errors) e = cc

pub capacity_most : (tok : Token) → capacity tok ≤ 12
capacity_most tok = ground (arith, ends tok)

-- An error is recorded, or one is there already, or the parser gives up on a file that has many.
pub report-Within :
    (src : Text) (n pos : ℕ) (errors : List SyntaxError) (at : ℕ) (message : Message) (st : State)
    → Within src n pos errors st
    → Ends
        (λ (st' : State). Within src n pos errors st' × (st'.errors ≢ []))
        (report src at message st)
unfolding report
report-Within src n pos errors at message st (inv, h) =
    Ends-if (same_line (last_line st.errors) (line_of src at))
      (λ e. returns ((inv, h), same_line-nonempty st.errors (line_of src at) e))
      (λ _.
        Ends-if (leb 11 (length st.errors))
          (λ e. bails (long_nonempty st.errors e) (omega (arith, inv.few, capacity_most st.tok)))
          (λ e.
            let error : SyntaxError = record { line = line_of src at; message = message } in
            let ne = not_nil st.errors error in
            let short : length st.errors ≤ 10 = ground arith in
            returns (
              (
                record {
                  no_nul = inv.no_nul;
                  inside = inv.inside;
                  spelled = inv.spelled;
                  live = inv.live;
                  few =
                      omega
                        (arith, short, capacity_least st.tok, length-append st.errors (error ∷ []));
                },
                record { less = h.less; from = h.from; kept = λ _. ne },
              ),
              ne,
            )))
  where
    not_nil : (errors : List SyntaxError) (e : SyntaxError) → errors ++ e ∷ [] ≢ []
    not_nil [] e = cc
    not_nil (d ∷ errors) e = cc
