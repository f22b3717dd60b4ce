-- ===== src/Parser/State/Advance.antt =====
-- `next` reads a token at least, comes to an end, and keeps the invariant of the parser's state.
use mathlib.Core.Path.{subst}
use pggen.Prelude.{
  ℕ, zero, suc, ◌+◌, ◌≤◌, ◌<◌, ◌≡◌, refl, ap, sym, ◌≢◌, Bool, true, false, [], ◌∷◌, ◌++◌, none,
  some, arith, ◌==◌, ◌&&◌, leb, if◌then◌else◌, length, All, ◌⊎◌, inl, inr,
}
use pggen.Prelude.Result.{Result, ok, err, ◌>>=◌}
use pggen.Prelude.Text.{Text}
use pggen.Scanner.{Token, line_comment, same_token, same_token-true}
use pggen.Parser.State.{
  CommentGroup, State, Stop, bailout, line_of, next0, comment_of, group_loop, consume_comment_group,
  groups_loop, trailing_group, set_lead, next,
}
use pggen.Parser.State.Reach.{
  ends, capacity, IsState, left, left_most, Follows, Follows-trans, next0-IsState,
}

-- A run that comes to a result with a property, or to the panic that stops a file with many errors.
pub data Ends {A : Type 0} (P : A → Type 0) : Result Stop A → Type 0 where
  returns : {a : A} → P a → Ends P (ok a)
  bails : {st : State} → st.errors ≢ [] → length st.errors ≤ 12 → Ends P (err (bailout st))

pub Ends-bind :
    {A B : Type 0} {P : A → Type 0} {Q : B → Type 0} {r : Result Stop A} (k : A → Result Stop B)
    → Ends P r
    → ((a : A) → P a → Ends Q (k a))
    → Ends Q (r >>= k)
Ends-bind k (returns {a} h) hk = hk a h
Ends-bind k (bails ne few) hk = bails ne few

pub Ends-map :
    {A : Type 0} {P Q : A → Type 0} {r : Result Stop A}
    → ((a : A) → P a → Q a)
    → Ends P r
    → Ends Q r
Ends-map hk (returns {a} h) = returns (hk a h)
Ends-map hk (bails ne few) = bails ne few

pub Ends-if :
    {A : Type 0} {P : A → Type 0} (b : Bool) {x y : Result Stop A}
    → (b ≡ true → Ends P x)
    → (b ≡ false → Ends P y)
    → Ends P (if b then x else y)
Ends-if true hx hy = hx refl
Ends-if false hx hy = hy refl

pub and_left : (a b : Bool) → (a && b) ≡ true → a ≡ true
and_left true b e = refl
and_left false b e = e

pub left-live :
    (tok : Token) (ahead : Text) → ends tok ≡ false → left tok ahead ≡ suc (length ahead)
left-live tok ahead e = rw e refl

pub capacity-live : (tok : Token) → ends tok ≡ false → capacity tok ≡ 11
capacity-live tok e = rw e refl

-- A state reached from another, with the invariant.
abbrev pub Reached : Text → State → State → Type 0
Reached src st0 st = IsState src st × Follows st0 st

Reached-if :
    (src : Text) (st0 : State) (b : Bool) (x y : State)
    → Reached src st0 x
    → Reached src st0 y
    → Reached src st0 (if b then x else y)
Reached-if src st0 true x y hx hy = hx
Reached-if src st0 false x y hx hy = hy

module _ (is_unicode_letter : ℕ → Bool) (src : Text) where
  pub next0-Reached :
      (st0 st : State)
      → ends st.tok ≡ false
      → IsState src st
      → Follows st0 st
      → Reached src st0 (next0 is_unicode_letter src st)
  next0-Reached st0 st live inv h =
      let (inv', h') =
        next0-IsState is_unicode_letter src st inv.no_nul inv.inside
          (omega (arith, inv.few, capacity-live st.tok live)) in
      (inv', Follows-trans src st0 st (next0 is_unicode_letter src st) inv live h h')

  next0-less :
      (st : State)
      → ends st.tok ≡ false
      → IsState src st
      → left (next0 is_unicode_letter src st).tok (next0 is_unicode_letter src st).ahead
        ≤ length st.ahead
  next0-less st live inv =
      (next0-IsState is_unicode_letter src st inv.no_nul inv.inside
        (omega (arith, inv.few, capacity-live st.tok live))).1.less

  group_loop-Ends :
      (f n : ℕ) (list : CommentGroup) (end_line : ℕ) (st0 st : State)
      → IsState src st
      → Follows st0 st
      → left st.tok st.ahead < f
      → Ends
          (λ (r : CommentGroup × ℕ × State). Reached src st0 r.2)
          (group_loop is_unicode_letter src f n list end_line st)
  unfolding group_loop
  group_loop-Ends zero n list end_line st0 st inv h fuel = ground arith
  group_loop-Ends (suc f) n list end_line st0 st inv h fuel =
      Ends-if (same_token st.tok line_comment && leb (line_of src st.pos) (end_line + n))
        (λ e.
          let live = ap ends (
            same_token-true st.tok line_comment (
              and_left (same_token st.tok line_comment) (leb (line_of src st.pos) (end_line + n))
                e)) in
          group_loop-Ends f n (list ++ comment_of is_unicode_letter src st ∷ [])
            (line_of src st.pos) st0 (next0 is_unicode_letter src st)
            (next0-Reached st0 st live inv h).0 (next0-Reached st0 st live inv h).1
            (omega (arith, next0-less st live inv, left-live st.tok st.ahead live, fuel)))
        (λ e. returns (inv, h))

  -- A group is read behind its first comment, on whose line it begins.
  group_begins :
      (f n : ℕ) (st : State)
      → same_token st.tok line_comment ≡ true
      → group_loop is_unicode_letter src (suc f) n [] (line_of src st.pos) st
        ≡ group_loop is_unicode_letter src f n
            (comment_of is_unicode_letter src st ∷ [])
            (line_of src st.pos)
            (next0 is_unicode_letter src st)
  unfolding group_loop
  group_begins f n st e =
      let on : leb (line_of src st.pos) (line_of src st.pos + n) ≡ true = ground arith in
      rw (e, on, group_loop) refl

  consume_comment_group-Ends :
      (n : ℕ) (st : State)
      → same_token st.tok line_comment ≡ true
      → IsState src st
      → Ends
          (λ (r : CommentGroup × ℕ × State). Reached src st r.2)
          (consume_comment_group is_unicode_letter src n st)
  unfolding consume_comment_group
  consume_comment_group-Ends n st e inv =
      let live = ap ends (same_token-true st.tok line_comment e) in
      let step =
        next0-IsState is_unicode_letter src st inv.no_nul inv.inside
          (omega (arith, inv.few, capacity-live st.tok live)) in
      Ends-bind
        (λ (list, end_line, st').
          ok (list, end_line, record st' { comments = st'.comments ++ list ∷ [] }))
        (rw (group_begins (suc (length st.ahead)) n st e) (
          group_loop-Ends (suc (length st.ahead)) n (comment_of is_unicode_letter src st ∷ [])
            (line_of src st.pos) st (next0 is_unicode_letter src st) step.0 step.1
            (omega (arith, step.1.less))))
        (λ r h. returns h)

  trailing_group-Ends :
      (prev : ℕ) (st : State)
      → same_token st.tok line_comment ≡ true
      → IsState src st
      → Ends
          (λ (r : CommentGroup × ℕ × State). IsState src r.2 × ((r.2 ≡ st) ⊎ Follows st r.2))
          (trailing_group is_unicode_letter src prev st)
  unfolding trailing_group
  trailing_group-Ends prev st e inv =
      Ends-if (line_of src st.pos == line_of src prev)
        (λ t. Ends-map (λ r h. (h.0, inr h.1)) (consume_comment_group-Ends 0 st e inv))
        (λ t. returns (inv, inl refl))

  groups_loop-Ends :
      (f : ℕ) (comment : CommentGroup) (end_line : ℕ) (st0 st : State)
      → IsState src st
      → Follows st0 st
      → left st.tok st.ahead < f
      → Ends
          (λ (r : CommentGroup × ℕ × State). Reached src st0 r.2)
          (groups_loop is_unicode_letter src f comment end_line st)
  unfolding groups_loop
  groups_loop-Ends zero comment end_line st0 st inv h fuel = ground arith
  groups_loop-Ends (suc f) comment end_line st0 st inv h fuel =
      Ends-if (same_token st.tok line_comment)
        (λ e.
          let live = ap ends (same_token-true st.tok line_comment e) in
          Ends-bind
            (λ (comment', end_line', st').
              groups_loop is_unicode_letter src f comment' end_line' st')
            (consume_comment_group-Ends 1 st e inv)
            (λ r h'.
              groups_loop-Ends f r.0 r.1 st0 r.2 h'.0 (Follows-trans src st0 st r.2 inv live h h'.1)
                (omega (arith, h'.1.less, left-live st.tok st.ahead live, fuel))))
        (λ e. returns (inv, h))

  -- `next` reads a token at least.
  pub next-Ends :
      (st : State)
      → All (λ c. c ≢ 0) st.ahead
      → st.offset + length st.ahead ≤ length src
      → length st.errors ≤ 11
      → Ends (Reached src st) (next is_unicode_letter src st)
  unfolding next
  next-Ends st no_nul inside few =
      let st' : State = record st { lead_comment = none } in
      let st0 : State = next0 is_unicode_letter src st' in
      let step = next0-IsState is_unicode_letter src st' no_nul inside few in
      Ends-if (same_token st0.tok line_comment)
        (λ e.
          Ends-bind
            (λ (comment, end_line, st1).
              groups_loop is_unicode_letter src (suc (suc (length st1.ahead))) comment end_line st1
              >>= λ r. ok (set_lead is_unicode_letter src r))
            (trailing_group-Ends st.pos st0 e step.0)
            (λ r h.
              Ends-bind (λ r. ok (set_lead is_unicode_letter src r))
                (groups_loop-Ends (suc (suc (length r.2.ahead))) r.0 r.1 st' r.2 h.0
                  (behind st' st0 r.2 step.0 (ap ends (same_token-true st0.tok line_comment e))
                    step.1 h.1)
                  (omega (arith, left_most r.2.tok r.2.ahead)))
                (λ r' h'. returns (set_lead-Reached st' r' h'))))
        (λ e. returns step)
    where
      behind :
          (st' st0 st1 : State)
          → IsState src st0
          → ends st0.tok ≡ false
          → Follows st' st0
          → (st1 ≡ st0) ⊎ Follows st0 st1
          → Follows st' st1
      behind st' st0 st1 inv live h (inl e) = subst (Follows st') (sym e) h
      behind st' st0 st1 inv live h (inr h') = Follows-trans src st' st0 st1 inv live h h'

      set_lead-Reached :
          (st' : State) (r : CommentGroup × ℕ × State)
          → Reached src st' r.2
          → Reached src st' (set_lead is_unicode_letter src r)
      set_lead-Reached st' (comment, end_line, st1) h =
          Reached-if src st' (suc end_line == line_of src st1.pos)
            (record st1 { lead_comment = some comment }) st1 h h
