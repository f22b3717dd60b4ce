-- ===== src/Ch/Parse/Sound.antt =====
-- `Parse` always comes to an end, and what it returns is a canonical type.
use pggen.Prelude.{
  ℕ, zero, suc, ◌<◌, ◌≡◌, refl, ◌≢◌, ◌⊎◌, inl, inr, not, [], ◌∷◌, arith, length, Bool-cases,
}
use pggen.Prelude.Decimal.{IsInt}
use pggen.Prelude.Result.{ok, err}
use pggen.Prelude.Text.{Text, codes, eq, eq-false}
use pggen.Ch.Types.{ChType, fixed_string, date_time, nullable, low_cardinality, array, no_elems}
use pggen.Ch.Parse.Lexer.{out_of_fuel, Parser, accept, skip_space}
use pggen.Ch.Parse.Ensures.{
  Ensures, parsed, refused, Ensures-bind, Ensures-weaken, Ensures-if, Ensures-ok,
  Ensures-ne-out_of_fuel, IsName, length-skip_space, length-accept, expect-Ensures,
  parse_ident-Ensures,
}
use pggen.Ch.Parse.Canonical.{IsCanonical, AreCanonical}
use pggen.Ch.Parse.{
  paren, ends_type, tuple_item, tuple_loop, tuple_args, map_args, bare_type, type_args, opens,
  type_named, parse_type, whole, parse,
}
use pggen.Ch.Parse.Arguments.{
  Reads, paren-Reads, wrap-Reads, decimal_args-Reads, date_time64_args-Reads, enum_args-Reads,
  unsupported_args-Reads, IsInt-Reads, string-Reads, fixed_decimal-Reads,
}

-- The parsers of composite types, over a parser of their parts that reads canonical types off texts
-- shorter than `n`.
module _ (rec : Parser ChType) (n : ℕ)
    (reads : (t : Text) → length t < n → Reads IsCanonical t (rec t)) where
  map_args-Reads : (s : Text) → length s < suc n → Reads IsCanonical s (map_args rec s)
  unfolding map_args
  map_args-Reads s h = Ensures-bind (expect-Ensures b'(' s) λ inner h₁.
      Ensures-bind (reads inner (omega arith)) λ (k, after) (ck, h₂).
        Ensures-bind (expect-Ensures b',' after) λ second h₃.
          Ensures-bind (reads second (omega arith)) λ (v, last) (cv, h₄).
            Ensures-bind (expect-Ensures b')' last)
              λ rest h₅. parsed (IsCanonical.map ck cv, omega arith)

  abbrev IsElem : Text × ChType → Type 0
  IsElem (name, t) = ((name ≡ []) ⊎ IsName name) × IsCanonical t

  tuple_item-Reads :
      (s ident next : Text)
      → length s < n
      → length next < length s
      → IsName ident
      → Reads IsElem s (tuple_item rec s ident next)
  unfolding tuple_item
  tuple_item-Reads s ident next h lt named =
      Ensures-if (not (ends_type next))
        (λ _.
          Ensures-bind (reads next (omega arith))
            λ (t, rest) (c, h'). parsed ((inr named, c), omega arith))
        (λ _. Ensures-bind (reads s h) λ (t, rest) (c, h'). parsed ((inl refl, c), h'))

  tuple_loop-Reads :
      (f : ℕ) (s : Text)
      → length s < f
      → length s < n
      → Reads (λ es. (es ≢ no_elems) × AreCanonical es) s (tuple_loop rec f s)
  unfolding tuple_loop
  tuple_loop-Reads zero s h h' = absurd (omega arith)
  tuple_loop-Reads (suc f) s h h' =
      Ensures-bind (parse_ident-Ensures s) λ (ident, behind) (named, h₁).
        Ensures-bind
          (tuple_item-Reads s ident (skip_space behind) h' (omega (arith, length-skip_space behind))
            named)
          λ ((name, t), after) (p, h₂).
            let (le, lt) = length-accept b',' after in
            Ensures-if (accept b',' after).0
              (λ more.
                Ensures-bind
                  (tuple_loop-Reads f (accept b',' after).1 (omega (arith, lt more))
                    (omega (arith, lt more)))
                  λ (es, rest) (ps, h₃). parsed ((cc, AreCanonical.elem p.0 p.1 ps.1), omega arith))
              (λ _. parsed ((cc, AreCanonical.elem p.0 p.1 AreCanonical.no_elems), omega arith))

  tuple_args-Reads :
      (f : ℕ) (s : Text)
      → length s < suc f
      → length s < suc n
      → Reads IsCanonical s (tuple_args rec f s)
  unfolding tuple_args
  tuple_args-Reads f s h h' = Ensures-bind (expect-Ensures b'(' s) λ inner h₁.
      Ensures-bind (tuple_loop-Reads f inner (omega arith) (omega arith)) λ (es, after) (p, h₂).
        Ensures-bind (expect-Ensures b')' after)
          λ rest h₃. parsed (IsCanonical.tuple p.0 p.1, omega arith)

  paren_rec-Reads : (s : Text) → length s < suc n → Reads IsCanonical s (paren rec s)
  paren_rec-Reads s h = paren-Reads IsCanonical s λ t lt. reads t (omega arith)

  type_args-Reads :
      (start name s : Text) → length s < n → Reads IsCanonical s (type_args rec n start name s)
  unfolding type_args
  type_args-Reads start name s h =
      Ensures-if (eq name (codes "Nullable"))
        (λ _.
          wrap-Reads IsCanonical nullable s (λ _. IsCanonical.nullable)
            (paren_rec-Reads s (omega arith)))
        λ _.
          Ensures-if (eq name (codes "LowCardinality"))
            (λ _.
              wrap-Reads IsCanonical low_cardinality s (λ _. IsCanonical.low_cardinality)
                (paren_rec-Reads s (omega arith)))
            λ _.
              Ensures-if (eq name (codes "Array"))
                (λ _.
                  wrap-Reads IsCanonical array s (λ _. IsCanonical.array)
                    (paren_rec-Reads s (omega arith)))
                λ _.
                  Ensures-if (eq name (codes "Map")) (λ _. map_args-Reads s (omega arith))
                    λ _.
                      Ensures-if (eq name (codes "FixedString"))
                        (λ _.
                          wrap-Reads IsInt fixed_string s (λ _. IsCanonical.fixed_string)
                            (IsInt-Reads s))
                        λ _.
                          Ensures-if (eq name (codes "Decimal")) (λ _. decimal_args-Reads s)
                            λ _.
                              Ensures-if (eq name (codes "Decimal32"))
                                (λ _. fixed_decimal-Reads 9 s (omega arith))
                                λ _.
                                  Ensures-if (eq name (codes "Decimal64"))
                                    (λ _. fixed_decimal-Reads 18 s (omega arith))
                                    λ _.
                                      Ensures-if (eq name (codes "Decimal128"))
                                        (λ _. fixed_decimal-Reads 38 s (omega arith))
                                        λ _.
                                          Ensures-if (eq name (codes "Decimal256"))
                                            (λ _. fixed_decimal-Reads 76 s (omega arith))
                                            λ _.
                                              Ensures-if (eq name (codes "DateTime"))
                                                (λ _.
                                                  wrap-Reads (λ _. Unit {0}) date_time s
                                                    (λ zone _. IsCanonical.date_time zone)
                                                    (string-Reads s))
                                                λ _.
                                                  Ensures-if (eq name (codes "DateTime64"))
                                                    (λ _. date_time64_args-Reads s)
                                                    λ _.
                                                      Ensures-if (eq name (codes "Enum8"))
                                                        (λ _. enum_args-Reads n 8 s (inl refl) h)
                                                        λ _.
                                                          Ensures-if (eq name (codes "Enum16"))
                                                            (λ _.
                                                            enum_args-Reads n 16 s (inr refl) h)
                                                            λ _.
                                                            Ensures-if (eq name (codes "Tuple"))
                                                            (λ _.
                                                            tuple_args-Reads n s (omega arith)
                                                            (omega arith))
                                                            λ _. unsupported_args-Reads start s

-- The fall of a name that is not one of the two with a meaning of their own.
bare_type-IsCanonical : (name : Text) → IsName name → IsCanonical (bare_type name)
unfolding bare_type
bare_type-IsCanonical name named = elim (Bool-cases (eq name (codes "DateTime"))) [
  | inl e ↦ rw e (IsCanonical.date_time [])
  | inr e ↦ elim (Bool-cases (eq name (codes "DateTime64"))) [
    | inl e' ↦ rw (e, e') (IsCanonical.date_time64 [] (omega arith))
    | inr e' ↦
        rw (e, e')
          (IsCanonical.scalar named (eq-false name (codes "DateTime") e)
            (eq-false name (codes "DateTime64") e'))
  ]
]

parse_type-Reads : (f : ℕ) (s : Text) → length s < f → Reads IsCanonical s (parse_type f s)
unfolding parse_type type_named
parse_type-Reads zero s h = absurd (omega arith)
parse_type-Reads (suc f) s h =
    let reads = parse_type-Reads f in
    Ensures-bind (parse_ident-Ensures s) λ (name, behind) (named, h₁).
      let shorter = length-skip_space behind in
      Ensures-if (opens (skip_space behind))
        (λ _.
          Ensures-weaken
            (type_args-Reads (parse_type f) f reads s name (skip_space behind) (omega arith))
            λ _ (c, h₂). (c, omega arith))
        (λ _. parsed (bare_type-IsCanonical name named, omega arith))

-- Every run of `Parse` ends in a type or an error of its own.
parse-Ensures : (name : Text) → Ensures IsCanonical (parse name)
unfolding parse
parse-Ensures name =
    Ensures-bind (parse_type-Reads (suc (length name)) name (omega arith))
      λ (t, rest) (c, h). at_end t (skip_space rest) c
  where
    at_end : (t : ChType) (rest : Text) → IsCanonical t → Ensures IsCanonical (whole t rest)
    at_end t [] c = parsed c
    at_end t (_ ∷ _) c = refused

-- The fuel that parse hands out is enough for every text.
pub parse-ne-out_of_fuel : (name : Text) → parse name ≢ err out_of_fuel
parse-ne-out_of_fuel name = Ensures-ne-out_of_fuel (parse-Ensures name)

-- Whatever Parse returns is canonical: its names are names, every number in it fits the type
-- int, an enum has a label and its values fit its width, and a tuple has an element.
pub parse-IsCanonical : (name : Text) {t : ChType} → parse name ≡ ok t → IsCanonical t
parse-IsCanonical name e = Ensures-ok (parse-Ensures name) e
