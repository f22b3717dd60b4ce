-- ===== src/Parser/Pragmas/Sound.antt =====
-- What `parsePragmas` promises of the pragmas that it returns.
use mathlib.Core.Path.{subst}
use pggen.Prelude.{
  ◌≡◌, refl, ap, sym, ◌∙◌, ◌⊎◌, inl, inr, Bool, true, false, not, ◌&&◌, List, [], ◌∷◌,
  if◌then◌else◌, Bool-cases,
}
use pggen.Prelude.Result.{Result, ok, err, Returns, Returns-bind, Returns-ok}
use pggen.Prelude.Text.{Text, codes, eq, is_empty}
use pggen.Parser.Pragmas.{
  Pragmas, PragmaError, no_pragmas, empty_paginate, sql_with_paginate, validate_proto_msg_type,
  validate_go_exported_ident, fields_from, split_from, set_pragma, read_pragma, read_pragmas,
  parse_pragmas,
}
use pggen.Parser.Pragmas.Valid.{IsExported, validate_go_exported_ident_iff}
use pggen.Parser.Pragmas.Proto.{IsSegments, validate_proto_msg_type_iff, validate_proto_msg_type-ok}

-- Each value is empty or has the form that its pragma asks for.
pub record IsPragmas (qp : Pragmas) : Type 0 where
  pub proto : (qp.protobuf_type ≡ []) ⊎ IsSegments qp.protobuf_type
  pub output : (qp.output_type ≡ []) ⊎ IsExported qp.output_type
  pub sql : (qp.sql_const ≡ []) ⊎ IsExported qp.sql_const

exported_Returns : (val : Text) → Returns (λ _. IsExported val) (validate_go_exported_ident val)
exported_Returns val = go (validate_go_exported_ident val) refl
  where
    go :
        (r : Result PragmaError (Unit {0}))
        → validate_go_exported_ident val ≡ r
        → Returns (λ _. IsExported val) r
    go (ok tt) e = (validate_go_exported_ident_iff val).0 e
    go (err why) e = tt

proto_Returns : (val : Text) → Returns (λ p. (p ≡ []) ⊎ IsSegments p) (validate_proto_msg_type val)
proto_Returns val = go (validate_proto_msg_type val) refl
  where
    go :
        (r : Result PragmaError Text)
        → validate_proto_msg_type val ≡ r
        → Returns (λ p. (p ≡ []) ⊎ IsSegments p) r
    go (ok p) e =
        let same = validate_proto_msg_type-ok val e in
        subst (λ t. (t ≡ []) ⊎ IsSegments t) same
          ((validate_proto_msg_type_iff val).0 (e ∙ ap ok (sym same)))
    go (err why) e = tt

set_pragma-Returns :
    (key val : Text) (qp : Pragmas) → IsPragmas qp → Returns IsPragmas (set_pragma key val qp)
unfolding set_pragma
set_pragma-Returns key val qp h = elim (Bool-cases (eq key (codes "proto-type"))) [
  | inl e ↦ rw e (
      Returns-bind _ IsPragmas (validate_proto_msg_type val) _ (proto_Returns val)
        λ p hp. record { proto = hp; output = h.output; sql = h.sql })
  | inr e ↦ elim (Bool-cases (eq key (codes "output"))) [
    | inl e' ↦
        rw (e, e')
          (Returns-bind _ IsPragmas (validate_go_exported_ident val) _ (exported_Returns val)
            λ u hv. record { proto = h.proto; output = inr hv; sql = h.sql })
    | inr e' ↦ elim (Bool-cases (eq key (codes "paginate"))) [
      | inl e'' ↦ rw (e, e', e'') (paginated (is_empty val))
      | inr e'' ↦ elim (Bool-cases (eq key (codes "sql"))) [
        | inl q ↦
            rw (e, e', e'', q)
              (Returns-bind _ IsPragmas (validate_go_exported_ident val) _ (exported_Returns val)
                λ u hv. record { proto = h.proto; output = h.output; sql = inr hv })
        | inr q ↦ rw (e, e', e'', q) tt
      ]
    ]
  ]
]
  where
    paginated :
        (b : Bool)
        → Returns IsPragmas (if b then err empty_paginate else ok (record qp { paginate = val }))
    paginated true = tt
    paginated false = record { proto = h.proto; output = h.output; sql = h.sql }

read_pragma-Returns :
    (s : Text) (arg : List Text) (qp : Pragmas)
    → IsPragmas qp
    → Returns IsPragmas (read_pragma s arg qp)
unfolding read_pragma
read_pragma-Returns s (key ∷ val ∷ []) qp h = set_pragma-Returns key val qp h
read_pragma-Returns s [] qp h = tt
read_pragma-Returns s (key ∷ []) qp h = tt
read_pragma-Returns s (key ∷ val ∷ more ∷ arg) qp h = tt

read_pragmas-Returns :
    (ss : List Text) (qp : Pragmas) → IsPragmas qp → Returns IsPragmas (read_pragmas ss qp)
unfolding read_pragmas
read_pragmas-Returns [] qp h = h
read_pragmas-Returns (s ∷ ss) qp h =
    Returns-bind _ IsPragmas (read_pragma s (split_from [] s) qp) _
      (read_pragma-Returns s (split_from [] s) qp h) λ qp' h'. read_pragmas-Returns ss qp' h'

parse_pragmas-Returns :
    (all : Text)
    → Returns (λ qp. IsPragmas qp × ((qp.paginate ≡ []) ⊎ (qp.sql_const ≡ []))) (parse_pragmas all)
unfolding parse_pragmas
parse_pragmas-Returns all =
    Returns-bind IsPragmas _ (read_pragmas (fields_from [] all) no_pragmas) _
      (read_pragmas-Returns (fields_from [] all) no_pragmas
        (record { proto = inl refl; output = inl refl; sql = inl refl }))
      λ qp h. one_of qp.paginate qp.sql_const qp h refl refl
  where
    one_of :
        (p c : Text) (qp : Pragmas)
        → IsPragmas qp
        → qp.paginate ≡ p
        → qp.sql_const ≡ c
        → Returns
            (λ r. IsPragmas r × ((r.paginate ≡ []) ⊎ (r.sql_const ≡ [])))
            (if not (is_empty p) && not (is_empty c) then err (sql_with_paginate c p) else ok qp)
    one_of [] c qp h e e' = (h, inl e)
    one_of (x ∷ p) [] qp h e e' = (h, inr e')
    one_of (x ∷ p) (y ∷ c) qp h e e' = tt

-- The pragmas that parsePragmas returns are valid: the proto type is empty or a dotted name,
-- the output type and the name of the constant are empty or exported identifiers of Go, and a
-- query is not both paginated and given a constant.
pub parse_pragmas-IsPragmas :
    (all : Text) {qp : Pragmas}
    → parse_pragmas all ≡ ok qp
    → IsPragmas qp × ((qp.paginate ≡ []) ⊎ (qp.sql_const ≡ []))
parse_pragmas-IsPragmas all e =
    Returns-ok (λ qp. IsPragmas qp × ((qp.paginate ≡ []) ⊎ (qp.sql_const ≡ [])))
      (parse_pragmas-Returns all) e
