-- ===== src/Parser/State/Reach.antt =====
-- What holds of each state of the parser on a file without a NUL, and of a state that follows another.
use mathlib.Core.Path.{subst}
use pggen.Prelude.{
  ℕ, suc, ◌+◌, ◌≤◌, ◌≡◌, refl, ap, sym, ◌∙◌, ◌≢◌, Bool, true, false, List, [], ◌∷◌, ◌++◌, arith,
  if◌then◌else◌, length, length-append, All, All-right,
}
use pggen.Prelude.Text.{Text}
use pggen.Scanner.{Token, illegal, eof, Scanned, token, ended, skip_whitespace, scan_token}
use pggen.Scanner.Cover.{Covers, read, scan_token-Covers, skip_whitespace_split}
use pggen.Scanner.Progress.{Takes, took, halted, at_end, scan_token-Takes}
use pggen.Scanner.Positions.{Spells, all_used, silent, scan_token-Spells}
use pggen.Parser.State.{State, SyntaxError, scan_error, line_of, take_token, next0}

-- The tokens that nothing is read behind.
abbrev pub ends : Token → Bool
ends illegal = true
ends eof = true
ends _ = false

-- The most errors that a state can have: the scanner adds the last.
abbrev pub capacity : Token → ℕ
capacity tok = if ends tok then 12 else 11

-- The invariant, on the fields that it reads.
pub record Fits (src ahead : Text) (offset pos : ℕ) (tok : Token) (lit : Text)
    (errors : List SyntaxError) : Type 0 where
  pub no_nul : All (λ c. c ≢ 0) ahead
  pub inside : offset + length ahead ≤ length src
  pub spelled : pos + length lit ≤ suc offset
  pub live : ends tok ≡ false → pos ≤ offset
  pub few : length errors ≤ capacity tok

abbrev pub IsState : Text → State → Type 0
IsState src st = Fits src st.ahead st.offset st.pos st.tok st.lit st.errors

-- What is left to read: nothing behind a token that ends the file, or the token and the text behind it.
abbrev pub left : Token → Text → ℕ
left tok ahead = if ends tok then 0 else suc (length ahead)

pub record Behind (ahead : Text) (offset : ℕ) (errors : List SyntaxError) (ahead' : Text) (pos' : ℕ)
    (tok' : Token) (errors' : List SyntaxError) : Type 0 where
  pub less : left tok' ahead' ≤ length ahead
  pub later : suc offset ≤ pos'
  pub kept : errors ≢ [] → errors' ≢ []

-- The second state is reached from the first by reading a token at least.
abbrev pub Follows : State → State → Type 0
Follows st st' = Behind st.ahead st.offset st.errors st'.ahead st'.pos st'.tok st'.errors

pub Follows-trans :
    (src : Text) (st st' st'' : State)
    → IsState src st'
    → ends st'.tok ≡ false
    → Follows st st'
    → Follows st' st''
    → Follows st st''
Follows-trans src st st' st'' inv live h h' =
    let smaller : left st'.tok st'.ahead ≡ suc (length st'.ahead) = rw live refl in
    record {
      less = omega (arith, smaller, h.less, h'.less);
      later = omega (arith, inv.spelled, h.later, h'.later);
      kept = λ ne. h'.kept (h.kept ne);
    }

pub capacity_least : (tok : Token) → 11 ≤ capacity tok
capacity_least tok = ground (arith, ends tok)

pub left_most : (tok : Token) (ahead : Text) → left tok ahead ≤ suc (length ahead)
left_most tok ahead = ground (arith, ends tok)

nonempty : (used : Text) → used ≢ [] → 1 ≤ length used
nonempty [] ne = ground (arith, ne)
nonempty (c ∷ used) ne = omega arith

-- A literal is not longer than what it was read from.
Spells-length :
    {tok : Token} (used lit rest : Text)
    → Spells (token tok used lit rest)
    → length lit ≤ length used
Spells-length used lit rest all_used = omega arith
Spells-length used lit rest silent = omega arith

not_nil : (xs ys : List SyntaxError) → xs ≢ [] → xs ++ ys ≢ []
not_nil [] ys ne = absurd (ne refl)
not_nil (x ∷ xs) ys ne = cc

module _ (src : Text) (st : State) (start : ℕ) (few : length st.errors ≤ 11)
    (from : st.offset ≤ start) where
  token_read :
      (tok : Token) (used lit rest : Text)
      → start + length (used ++ rest) ≤ length src
      → length (used ++ rest) ≤ length st.ahead
      → All (λ c. c ≢ 0) (used ++ rest)
      → used ≢ []
      → length lit ≤ length used
      → IsState src (take_token src start (token tok used lit rest) st)
        × Follows st (take_token src start (token tok used lit rest) st)
  unfolding take_token
  token_read tok used lit rest inside short no_nul ne fits =
      let size = length-append used rest in
      let one = nonempty used ne in
      (
        record {
          no_nul = All-right (λ c. c ≢ 0) used rest no_nul;
          inside = omega (arith, size, inside);
          spelled = omega (arith, fits);
          live = λ e. omega (arith, one);
          few = omega (arith, few, capacity_least tok);
        },
        record {
          less = omega (arith, size, one, short, left_most tok rest);
          later = omega (arith, from);
          kept = λ ne. ne;
        },
      )

  illegal_read :
      start ≤ length src
      → IsState src (take_token src start (ended illegal) st)
        × Follows st (take_token src start (ended illegal) st)
  unfolding take_token
  illegal_read inside = (
    record {
      no_nul = tt;
      inside = omega (arith, inside);
      spelled = omega arith;
      live = λ e. cc;
      few = omega (
        arith,
        few,
        length-append st.errors
            (record { line = line_of src (suc start); message = scan_error } ∷ []),
      );
    },
    record {
      less = omega arith;
      later = omega (arith, from);
      kept = λ ne.
          not_nil st.errors (record { line = line_of src (suc start); message = scan_error } ∷ [])
            ne;
    },
  )

  eof_read :
      start ≤ length src
      → IsState src (take_token src start (ended eof) st)
        × Follows st (take_token src start (ended eof) st)
  unfolding take_token
  eof_read inside = (
    record {
      no_nul = tt;
      inside = omega (arith, inside);
      spelled = omega arith;
      live = λ e. cc;
      few = omega (arith, few);
    },
    record { less = omega arith; later = omega (arith, from); kept = λ ne. ne },
  )

taken_IsState :
    (src : Text) (st : State) (start : ℕ) (s : Text) (x : Scanned)
    → length st.errors ≤ 11
    → st.offset ≤ start
    → start + length s ≤ length src
    → length s ≤ length st.ahead
    → All (λ c. c ≢ 0) s
    → Covers s x
    → Takes x
    → Spells x
    → IsState src (take_token src start x st) × Follows st (take_token src start x st)
taken_IsState src st start s (token tok used lit rest) few from inside short no_nul (read hc)
      (took ne) hs =
    token_read src st start few from tok used lit rest
      (subst (λ s. start + length s ≤ length src) (sym hc) inside)
      (subst (λ s. length s ≤ length st.ahead) (sym hc) short)
      (subst (All (λ c. c ≢ 0)) (sym hc) no_nul) ne (Spells-length used lit rest hs)
taken_IsState src st start s _ few from inside short no_nul hc halted hs =
    illegal_read src st start few from (omega (arith, inside))
taken_IsState src st start s _ few from inside short no_nul hc at_end hs =
    eof_read src st start few from (omega (arith, inside))

-- Reading a token.
pub next0-IsState :
    (is_unicode_letter : ℕ → Bool) (src : Text) (st : State)
    → All (λ c. c ≢ 0) st.ahead
    → st.offset + length st.ahead ≤ length src
    → length st.errors ≤ 11
    → IsState src (next0 is_unicode_letter src st) × Follows st (next0 is_unicode_letter src st)
unfolding next0
next0-IsState is_unicode_letter src st no_nul inside few =
    let split = skip_whitespace_split st.ahead in
    let size : length (skip_whitespace st.ahead).0 + length (skip_whitespace st.ahead).1
        ≡ length st.ahead =
      sym (length-append (skip_whitespace st.ahead).0 (skip_whitespace st.ahead).1)
      ∙ ap length split in
    let on : All (λ c. c ≢ 0) (skip_whitespace st.ahead).1 =
      All-right (λ c. c ≢ 0) (skip_whitespace st.ahead).0 (skip_whitespace st.ahead).1
        (subst (All (λ c. c ≢ 0)) (sym split) no_nul) in
    taken_IsState src st (st.offset + length (skip_whitespace st.ahead).0)
      (skip_whitespace st.ahead).1 (scan_token is_unicode_letter (skip_whitespace st.ahead).1) few
      (omega arith) (omega (arith, size, inside)) (omega (arith, size)) on
      (scan_token-Covers is_unicode_letter (skip_whitespace st.ahead).1)
      (scan_token-Takes is_unicode_letter (skip_whitespace st.ahead).1 on)
      (scan_token-Spells is_unicode_letter (skip_whitespace st.ahead).1)
