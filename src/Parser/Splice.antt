-- ===== src/Parser/Splice.antt =====
-- `prepareSQL` against a description of a query as text and calls of pggen.arg.
use mathlib.Core.Option
use mathlib.Core.Path.{subst}
use pggen.Prelude.{
  ℕ, suc, ◌+◌, ◌-◌, ◌≡◌, refl, ap, sym, ◌∙◌, true, ◌&&◌, List, [], ◌∷◌, ◌++◌, append_assoc,
  append-nil, Option, none, some, arith, leb, length, length-append, take-length, drop-length,
}
use pggen.Prelude.Text.{Text}
use pggen.Parser.Prepare.{
  ArgPos, Numbering, Placeholder, order_of, unnumbered, number_args, slice_of, ordinal, splice,
  prepare_sql,
}
use pggen.Parser.Numbering.{
  position, firsts, place, IsNumbering, unnumbered-IsNumbering, number_args-IsNumbering,
  number_args-firsts, names_of,
}

-- A query: text that is kept, and calls of pggen.arg as they are spelled with the name they give.
pub data Part : Type 0 where
  kept : Text → Part
  call : Text → Text → Part

abbrev pub render : List Part → Text
render [] = []
render (kept t ∷ ps) = t ++ render ps
render (call spelled name ∷ ps) = spelled ++ render ps

-- The positions of the calls, where the query goes on at an offset.
abbrev pub args_from : ℕ → List Part → List ArgPos
args_from at_ [] = []
args_from at_ (kept t ∷ ps) = args_from (at_ + length t) ps
args_from at_ (call spelled name ∷ ps) =
    record { lo = at_; hi = at_ + length spelled; name = name }
    ∷ args_from (at_ + length spelled) ps

abbrev pub names : List Part → List Text
names [] = []
names (kept t ∷ ps) = names ps
names (call spelled name ∷ ps) = name ∷ names ps

-- The query with each call replaced by the placeholder of its name, numbered by the names' list.
abbrev pub prepared : Placeholder → List Text → List Part → Text
prepared ph params [] = []
prepared ph params (kept t ∷ ps) = t ++ prepared ph params ps
prepared ph params (call spelled name ∷ ps) = ph name (place name params) ++ prepared ph params ps

names-args_from : (at_ : ℕ) (ps : List Part) → names_of (args_from at_ ps) ≡ names ps
names-args_from at_ [] = refl
names-args_from at_ (kept t ∷ ps) = names-args_from (at_ + length t) ps
names-args_from at_ (call spelled name ∷ ps) =
    ap (◌∷◌ name) (names-args_from (at_ + length spelled) ps)

slice_of_part :
    (front part rest : Text)
    → slice_of (front ++ (part ++ rest)) (length front) (length front + length part) ≡ some part
unfolding slice_of
slice_of_part front part rest =
    rw (in_range, drop-length front (part ++ rest), less) (ap some (take-length part rest))
  where
    in_range :
        (leb (length front) (length front + length part)
          && leb (length front + length part) (length (front ++ (part ++ rest))))
        ≡ true
    in_range = ground (arith, length-append front (part ++ rest), length-append part rest)

    less : length front + length part - length front ≡ length part
    less = omega arith

slice_of_at :
    (bs front part rest : Text) (lo hi : ℕ)
    → bs ≡ front ++ (part ++ rest)
    → lo ≡ length front
    → hi ≡ lo + length part
    → slice_of bs lo hi ≡ some part
slice_of_at bs front part rest lo hi e e' e'' = cc (slice_of_part front part rest)

module _ (ph : Placeholder) (orders : List (Text × ℕ)) (bs : Text) where
  -- The rounds of the loop.
  splice_end :
      {tail : Text} (prev : ℕ) (sb : Text)
      → slice_of bs prev (length bs) ≡ some tail
      → splice ph orders bs [] prev sb ≡ some (sb ++ tail)
  unfolding splice
  splice_end prev sb e = rw (e, splice)

  splice_arg :
      {part : Text} (arg : ArgPos) (args : List ArgPos) (prev : ℕ) (sb : Text)
      → slice_of bs prev arg.lo ≡ some part
      → splice ph orders bs (arg ∷ args) prev sb
        ≡ splice ph orders bs args arg.hi (sb ++ (part ++ ph arg.name (ordinal arg.name orders)))
  unfolding splice
  splice_arg arg args prev sb e = rw (e, splice)

  -- What the loop writes from `prev` on, where `front` lies behind it and `held` is read but not written.
  module _ (params : List Text)
      (numbered : (name : Text) → ordinal name orders ≡ place name params) where
    splice-prepared :
        (ps : List Part) (front held sb : Text) (prev at_ : ℕ)
        → bs ≡ front ++ (held ++ render ps)
        → prev ≡ length front
        → at_ ≡ prev + length held
        → splice ph orders bs (args_from at_ ps) prev sb
          ≡ some (sb ++ (held ++ prepared ph params ps))
    splice-prepared [] front held sb prev at_ e e' e'' =
        splice_end prev sb (
          slice_of_at bs front held [] prev (length bs) e e'
            (omega (arith, ap length e, length-append front (held ++ []), length-append held [])))
        ∙ ap (λ t. some (sb ++ t)) (sym (append-nil held))
    splice-prepared (kept t ∷ ps) front held sb prev at_ e e' e'' =
        splice-prepared ps front (held ++ t) sb prev (at_ + length t)
          (e ∙ ap (λ r. front ++ r) (sym (append_assoc held t (render ps)))) e'
          (omega (arith, length-append held t))
        ∙ ap (λ r. some (sb ++ r)) (append_assoc held t (prepared ph params ps))
    splice-prepared (call spelled name ∷ ps) front held sb prev at_ e e' e'' =
        splice_arg (record { lo = at_; hi = at_ + length spelled; name = name })
          (args_from (at_ + length spelled) ps) prev sb
          (slice_of_at bs front held (spelled ++ render ps) prev at_ e e' e'')
        ∙ splice-prepared ps (front ++ (held ++ spelled)) []
            (sb ++ (held ++ ph name (ordinal name orders))) (at_ + length spelled)
            (at_ + length spelled) (e ∙ regroup)
            (omega (arith, length-append front (held ++ spelled), length-append held spelled))
            (omega arith)
        ∙ written
      where
        regroup :
            front ++ (held ++ (spelled ++ render ps)) ≡ (front ++ (held ++ spelled)) ++ render ps
        regroup = simp append_assoc

        written :
            some ((sb ++ (held ++ ph name (ordinal name orders))) ++ prepared ph params ps)
            ≡ some (sb ++ (held ++ (ph name (place name params) ++ prepared ph params ps)))
        written = simp (numbered name, append_assoc)

ordinal-place :
    {st : Numbering}
    → IsNumbering st
    → (name : Text) → ordinal name st.orders ≡ place name st.params
unfolding ordinal
ordinal-place {st} inv name =
    go (order_of name st.orders) (position name st.params) (inv.ordered name)
  where
    go :
        (o p : Option ℕ)
        → o ≡ Option.map suc p
        → ◌≡◌ {A = ℕ} (elim o [ none ↦ 0 | some idx ↦ idx ]) (elim p [ none ↦ 0 | some i ↦ suc i ])
    go o none e = rw e refl
    go o (some i) e = rw e refl

numbered : List Part → Numbering
numbered ps = number_args unnumbered (args_from 0 ps)

numbered-IsNumbering : (ps : List Part) → IsNumbering (numbered ps)
unfolding numbered
numbered-IsNumbering ps = number_args-IsNumbering unnumbered (args_from 0 ps) unnumbered-IsNumbering

numbered-firsts : (ps : List Part) → (numbered ps).params ≡ firsts [] (names ps)
unfolding numbered
numbered-firsts ps =
    number_args-firsts unnumbered (args_from 0 ps) unnumbered-IsNumbering
    ∙ ap (firsts []) (names-args_from 0 ps)

-- The query without calls is left as it is.
prepared_no_call :
    (ph : Placeholder) (params : List Text) (ps : List Part)
    → args_from 0 ps ≡ []
    → prepared ph params ps ≡ render ps
prepared_no_call ph params ps e = go ps 0 e
  where
    go : (ps : List Part) (at_ : ℕ) → args_from at_ ps ≡ [] → prepared ph params ps ≡ render ps
    go [] at_ h = refl
    go (kept t ∷ ps) at_ h = ap (λ r. t ++ r) (go ps (at_ + length t) h)
    go (call spelled name ∷ ps) at_ h = cc

prepare_sql_args :
    (ph : Placeholder) (sql : Text) (arg : ArgPos) (args : List ArgPos) {out : Text}
    → splice ph (number_args unnumbered (arg ∷ args)).orders sql (arg ∷ args) 0 [] ≡ some out
    → prepare_sql ph sql (arg ∷ args) ≡ some (out, (number_args unnumbered (arg ∷ args)).params)
unfolding prepare_sql
prepare_sql_args ph sql arg args e = rw (e, prepare_sql)

prepare_sql_nil : (ph : Placeholder) (sql : Text) → prepare_sql ph sql [] ≡ some (sql, [])
unfolding prepare_sql
prepare_sql_nil ph sql = refl

-- `prepareSQL` replaces each call of pggen.arg by the placeholder of its name, numbered from
-- one in the order of the names' first appearance, so calls of one name have one number,
-- leaves all else as it is, never panics, and returns the names once each in that order.
pub prepare_sql-render :
    (ph : Placeholder) (ps : List Part)
    → prepare_sql ph (render ps) (args_from 0 ps)
      ≡ some (prepared ph (firsts [] (names ps)) ps, firsts [] (names ps))
unfolding numbered
prepare_sql-render ph ps = go (args_from 0 ps) refl
  where
    spliced :
        splice ph (numbered ps).orders (render ps) (args_from 0 ps) 0 []
        ≡ some (prepared ph (firsts [] (names ps)) ps)
    spliced =
        splice-prepared ph (numbered ps).orders (render ps) (firsts [] (names ps))
          (λ name.
            ordinal-place (numbered-IsNumbering ps) name ∙ ap (place name) (numbered-firsts ps))
          ps [] [] [] 0 0 refl (omega arith) (omega arith)

    go :
        (args : List ArgPos)
        → args_from 0 ps ≡ args
        → prepare_sql ph (render ps) args
          ≡ some (prepared ph (firsts [] (names ps)) ps, firsts [] (names ps))
    go [] e =
        let no_name : names ps ≡ [] = sym (names-args_from 0 ps) ∙ ap names_of e in
        prepare_sql_nil ph (render ps)
        ∙ rw (prepared_no_call ph (firsts [] (names ps)) ps e, no_name) refl
    go (arg ∷ args) e =
        prepare_sql_args ph (render ps) arg args (
          subst
            (λ l.
              splice ph (number_args unnumbered l).orders (render ps) l 0 []
              ≡ some (prepared ph (firsts [] (names ps)) ps))
            e spliced)
        ∙ ap (λ params. some (prepared ph (firsts [] (names ps)) ps, params))
            (ap (λ l. (number_args unnumbered l).params) (sym e) ∙ numbered-firsts ps)
