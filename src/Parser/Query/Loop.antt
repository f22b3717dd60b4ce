-- ===== src/Parser/Query/Loop.antt =====
-- The rounds of the loop of `parseQuery`.
use pggen.Prelude.{
  ℕ, zero, suc, ◌+◌, ◌-◌, ◌≤◌, ◌<◌, ◌≡◌, refl, ap, ◌≢◌, Bool, true, false, ◌&&◌, ◌||◌, List, [],
  ◌∷◌, ◌++◌, Option, none, some, arith, leb, length, inl, inr, ◌⊎◌,
}
use pggen.Prelude.Result.{ok}
use pggen.Prelude.Text.{Text, codes, has_prefix}
use pggen.Scanner.{
  Token, illegal, eof, line_comment, block_comment, quoted_ident, string, query_fragment, semicolon,
  same_token, same_token-true,
}
use pggen.Parser.Prepare.{ArgPos}
use pggen.Parser.State.{State, SyntaxError, unterminated_query}
use pggen.Parser.State.Reach.{ends, IsState, left, left_most}
use pggen.Parser.State.Advance.{Ends, returns, Ends-bind, Ends-if, left-live}
use pggen.Parser.Query.{
  Parsed, found, failed, Collected, collected, spoiled, relative, has_pggen_arg, last_index,
  unterminated, arg_start, query_loop,
}
use pggen.Parser.Query.Ordered.{
  Ordered, Ordered-snoc, last_index-bound, last_index-paren, has_pggen_arg-last_index,
}
use pggen.Parser.Query.Within.{Within, Within-more, next-Within, report-Within}
use pggen.Parser.Query.Collect.{IsParsed, is_found, is_failed, parse_pggen_arg-IsParsed}

-- The arguments read so far end before the token, or at its first character, a closing parenthesis.
pub record Placed (pos : ℕ) (names : List ArgPos) (at : ℕ) (lit : Text) : Type 0 where
  pub bound : ℕ
  pub ordered : Ordered 0 names bound
  pub at_or_before :
      (bound + (pos - 1) < at) ⊎ ((bound + (pos - 1) ≤ at) × (has_prefix lit (codes ")") ≡ true))

pub data IsCollected (src : Text) (n pos : ℕ) (errors : List SyntaxError) : Collected → Type 0 where
  is_collected :
      {names : List ArgPos} {st : State}
      → Within src (suc n) pos errors st
      → ends st.tok ≡ false
      → Placed pos names st.pos st.lit
      → IsCollected src n pos errors (collected names st)
  is_spoiled :
      {st : State}
      → Within src n pos errors st
      → st.errors ≢ []
      → IsCollected src n pos errors (spoiled st)

pub Placed-at :
    (pos : ℕ) (names : List ArgPos) (at : ℕ) (lit : Text) (p : Placed pos names at lit)
    → p.bound + (pos - 1) ≤ at
Placed-at pos names at lit p = elim p.at_or_before [ inl h ↦ omega (arith, h) | inr h ↦ h.0 ]

-- Where the call of a fragment starts: not in front of the arguments that are read, nor behind the fragment.
arg_start-Placed :
    (pos : ℕ) (names : List ArgPos) (st : State)
    → has_pggen_arg st.lit ≡ true
    → 1 ≤ pos
    → pos ≤ st.pos
    → (p : Placed pos names st.pos st.lit)
    → (p.bound + (pos - 1) ≤ arg_start st) × (suc (arg_start st) ≤ st.pos + length st.lit)
unfolding arg_start
arg_start-Placed pos names st h one from p =
    go (last_index st.lit (codes "pggen")) refl (has_pggen_arg-last_index st.lit h) p.at_or_before
  where
    go :
        (o : Option ℕ)
        → last_index st.lit (codes "pggen") ≡ o
        → o ≢ none
        → (p.bound + (pos - 1) < st.pos)
          ⊎ ((p.bound + (pos - 1) ≤ st.pos) × (has_prefix st.lit (codes ")") ≡ true))
        → (p.bound + (pos - 1) ≤ elim o [ none ↦ st.pos - 2 | some i ↦ st.pos + i - 1 ])
          × (suc (elim o [ none ↦ st.pos - 2 | some i ↦ st.pos + i - 1 ]) ≤ st.pos + length st.lit)
    go none e ne before = absurd (ne refl)
    go (some i) e ne (inl lt) =
        let bound = last_index-bound st.lit (codes "pggen") i e in (omega arith, omega arith)
    go (some i) e ne (inr (le, paren)) =
        let bound = last_index-bound st.lit (codes "pggen") i e in
        let positive = last_index-paren st.lit i paren e in (omega arith, omega arith)

pub live_token :
    (tok : Token) → same_token tok eof ≡ false → same_token tok illegal ≡ false → ends tok ≡ false
live_token illegal e e' = cc
live_token eof e e' = cc
live_token line_comment e e' = refl
live_token block_comment e e' = refl
live_token string e e' = refl
live_token quoted_ident e e' = refl
live_token query_fragment e e' = refl
live_token semicolon e e' = refl

dead_token : (tok : Token) → (same_token tok eof || same_token tok illegal) ≡ true → ends tok ≡ true
dead_token illegal e = refl
dead_token eof e = refl
dead_token line_comment e = cc
dead_token block_comment e = cc
dead_token string e = cc
dead_token quoted_ident e = cc
dead_token query_fragment e = cc
dead_token semicolon e = cc

and_right : (a b : Bool) → (a && b) ≡ true → b ≡ true
and_right true b e = e
and_right false b e = cc

pub or-false : (a b : Bool) → (a || b) ≡ false → (a ≡ false) × (b ≡ false)
or-false a b e = (ground (arith, e), ground (arith, e))

module _ (is_unicode_letter : ℕ → Bool) (src : Text) (pos : ℕ) (errors : List SyntaxError)
    (one : 1 ≤ pos) where
  -- A call's argument, behind those that are read.
  Placed-snoc :
      (names : List ArgPos) (st st' : State) (name : Text)
      → has_pggen_arg st.lit ≡ true
      → pos ≤ st.pos
      → IsState src st
      → st.offset < st'.pos
      → has_prefix st'.lit (codes ")") ≡ true
      → Placed pos names st.pos st.lit
      → Placed pos
          (names ++ relative pos (record { lo = arg_start st; hi = st'.pos; name = name }) ∷ [])
          st'.pos
          st'.lit
  Placed-snoc names st st' name h from inv after paren p =
      let (above, below) = arg_start-Placed pos names st h one from p in
      let arg : ArgPos = relative pos (record { lo = arg_start st; hi = st'.pos; name = name }) in
      record {
        bound = st'.pos - (pos - 1);
        ordered =
            Ordered-snoc 0 names p.bound arg p.ordered (omega (arith, above))
              (omega (arith, below, inv.spelled, after));
        at_or_before = inr (omega (arith, from, below, inv.spelled, after, above), paren);
      }

  pub query_loop-IsCollected :
      (cap : ℕ)
      → length src < cap
      → (f n : ℕ) (names : List ArgPos) (st : State) → Within src (suc n) pos errors st
      → left st.tok st.ahead < f
      → Placed pos names st.pos st.lit
      → Ends (IsCollected src n pos errors) (query_loop is_unicode_letter src cap f pos names st)
  unfolding query_loop
  query_loop-IsCollected cap room zero n names st h fuel p = ground arith
  query_loop-IsCollected cap room (suc f) n names st h fuel p =
      Ends-if (same_token st.tok semicolon)
        (λ e. returns (is_collected h (ap ends (same_token-true st.tok semicolon e)) p))
        (λ _.
          Ends-if (same_token st.tok eof || same_token st.tok illegal) (λ e. spoiled_there e)
            (λ e.
              let live =
                live_token st.tok (or-false (same_token st.tok eof) (same_token st.tok illegal) e).0
                  (or-false (same_token st.tok eof) (same_token st.tok illegal) e).1 in
              let size = left-live st.tok st.ahead live in
              let h' = exact live in
              Ends-if (same_token st.tok query_fragment && has_pggen_arg st.lit)
                (λ e'.
                  Ends-bind
                    (λ r. elim r [
                      | found arg st' ↦
                          query_loop is_unicode_letter src cap f pos
                            (names ++ relative pos arg ∷ []) st'
                      | failed st' ↦ ok (spoiled st')
                    ])
                    (parse_pggen_arg-IsParsed is_unicode_letter src pos errors (length st.ahead) st
                      live h')
                    (λ r hr.
                      parsed (omega (arith, size, h.1.less))
                        (and_right (same_token st.tok query_fragment) (has_pggen_arg st.lit) e')
                        (λ st' names' hw p'.
                          query_loop-IsCollected cap room f n names' st'
                            (Within-more src (length st.ahead) (suc n) pos errors st'
                              (omega (arith, size, h.1.less)) hw)
                            (omega (arith, hw.1.less, size, fuel)) p')
                        hr))
                (λ e'.
                  Ends-bind (λ st'. query_loop is_unicode_letter src cap f pos names st')
                    (next-Within is_unicode_letter src (length st.ahead) pos errors st live h')
                    (λ st' (hw, later).
                      query_loop-IsCollected cap room f n names st'
                        (Within-more src (length st.ahead) (suc n) pos errors st'
                          (omega (arith, size, h.1.less)) hw)
                        (omega (arith, hw.1.less, size, fuel))
                        (record {
                          bound = p.bound;
                          ordered = p.ordered;
                          at_or_before = inl (
                              omega
                                (arith, Placed-at pos names st.pos st.lit p, later, h.0.live live));
                        })))))
    where
      spoiled_there :
          (same_token st.tok eof || same_token st.tok illegal) ≡ true
          → Ends (IsCollected src n pos errors) (unterminated is_unicode_letter src cap pos st)
      spoiled_there e =
          let from : leb pos st.pos ≡ true = ground (arith, h.1.from) in
          let to : leb st.pos cap ≡ true = ground (arith, h.0.spelled, h.0.inside, room) in
          let empty : left st.tok st.ahead ≡ 0 = rw (dead_token st.tok e) refl in
          rw (from, to)
            (Ends-bind (λ st'. ok (spoiled st'))
              (report-Within src n pos errors st.pos unterminated_query st
                (h.0, record { less = omega (arith, empty); from = h.1.from; kept = h.1.kept }))
              (λ st' h'. returns (is_spoiled h'.0 h'.1)))

      exact : ends st.tok ≡ false → Within src (suc (length st.ahead)) pos errors st
      exact live =
          (h.0, record { less = left_most st.tok st.ahead; from = h.1.from; kept = h.1.kept })

      parsed :
          {r : Parsed}
          → length st.ahead ≤ n
          → has_pggen_arg st.lit ≡ true
          → ((st' : State) (names' : List ArgPos)
              → Within src (length st.ahead) pos errors st'
              → Placed pos names' st'.pos st'.lit
              → Ends
                  (IsCollected src n pos errors)
                  (query_loop is_unicode_letter src cap f pos names' st'))
          → IsParsed src (length st.ahead) pos errors (arg_start st) st.offset r
          → Ends (IsCollected src n pos errors) (elim r [
            | found arg st' ↦
                query_loop is_unicode_letter src cap f pos (names ++ relative pos arg ∷ []) st'
            | failed st' ↦ ok (spoiled st')
          ])
      parsed le has later (is_found {name} {st = st'} hw after paren) =
          later st'
            (names ++ relative pos (record { lo = arg_start st; hi = st'.pos; name = name }) ∷ [])
            hw (Placed-snoc names st st' name has h.1.from h.0 after paren p)
      parsed le has later (is_failed {st = st'} hw ne) =
          returns (is_spoiled (Within-more src (length st.ahead) n pos errors st' le hw) ne)
