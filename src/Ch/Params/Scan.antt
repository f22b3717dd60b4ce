-- ===== src/Ch/Params/Scan.antt =====
-- `scanSQL` comes to an end, and what its callbacks keep invariant holds of what it returns.
use mathlib.Core.Path.{subst}
use pggen.Prelude.{
  ℕ, suc, ◌<◌, ◌≡◌, refl, ap, ◌≢◌, inl, inr, true, false, [], ◌∷◌, ◌++◌, Option, none, some, arith,
  ◌==◌, length, length-append, Option-cases,
}
use pggen.Prelude.Result.{Result, ok, err, ◌>>=◌, map_err}
use pggen.Prelude.Text.{Text, cut, cut-some, trim_space, trim_space_idem}
use pggen.Ch.Types.{ChType}
use pggen.Ch.Parse.Lexer
use pggen.Ch.Parse.Canonical.{IsCanonical}
use pggen.Ch.Parse.Sound.{parse-IsCanonical}
use pggen.Ch.Parse.{parse}
use pggen.Ch.Statements.{skip_comment, skip_literal}
use pggen.Ch.Params.{
  Param, ScanError, bad_type, out_of_fuel, named_param, param_body, read_param, emit_text,
  scan_loop,
}

-- The run did not want for fuel, and `P` holds of its value if it has one.
pub data Ensures {ℓ κ} {A : Type ℓ} (P : A → Type κ) : Result ScanError A → Type (ℓ ⊔ κ) where
  scanned : {a : A} → P a → Ensures P (ok a)
  refused : {e : ScanError} → e ≢ out_of_fuel → Ensures P (err e)

module _ {ℓ κ ℓ' κ'} {A : Type ℓ} {B : Type ℓ'} {P : A → Type κ} {Q : B → Type κ'} where
  pub Ensures-bind :
      {r : Result ScanError A} {f : A → Result ScanError B}
      → Ensures P r
      → ((a : A) → P a → Ensures Q (f a))
      → Ensures Q (r >>= f)
  Ensures-bind (scanned {a} h) k = k a h
  Ensures-bind (refused ne) k = refused ne

module _ {ℓ κ} {A : Type ℓ} {P : A → Type κ} where
  pub Ensures-ok : {r : Result ScanError A} {a : A} → Ensures P r → r ≡ ok a → P a
  Ensures-ok (scanned h) e = subst P (cc) h
  Ensures-ok (refused ne) e = cc

  pub Ensures-ne-out_of_fuel : {r : Result ScanError A} → Ensures P r → r ≢ err out_of_fuel
  Ensures-ne-out_of_fuel (scanned h) = cc
  Ensures-ne-out_of_fuel (refused ne) = λ e. ne (cc)

-- What `scanSQL` hands to `onParam`: a trimmed name, and a canonical type.
pub record IsParam (p : Param) : Type 0 where
  pub named : p.name ≢ []
  pub trimmed : trim_space p.name ≡ p.name
  pub canonical : IsCanonical p.type

named_param-Ensures :
    (name spelled : Text) → trim_space name ≡ name → Ensures IsParam (named_param name spelled)
unfolding named_param
named_param-Ensures [] spelled h = refused (cc)
named_param-Ensures (c ∷ name) spelled h = go (parse (trim_space spelled)) refl
  where
    go :
        (r : Result Lexer.ParseError ChType)
        → parse (trim_space spelled) ≡ r
        → Ensures IsParam
            (map_err (bad_type (c ∷ name)) r >>= λ t. ok (record { name = c ∷ name; type = t }))
    go (ok t) e = scanned (record { named = cc; trimmed = h; canonical = parse-IsCanonical _ e })
    go (err why) e = refused (cc)

pub read_param-Ensures :
    (s : Text) → Ensures (λ (p, rest). IsParam p × (length rest < length s)) (read_param s)
unfolding read_param
read_param-Ensures s = elim (Option-cases (cut s b'}')) [
  | inl e ↦ rw e (refused (cc))
  | inr ((body, rest), e) ↦ rw e (
      Ensures-bind (body_Ensures body (cut body b':'))
        λ p h. scanned (h, shorter body rest (cut-some s b'}' body rest e).0))
]
  where
    body_Ensures : (body : Text) (o : Option (Text × Text)) → Ensures IsParam (param_body body o)
    body_Ensures body none = refused (cc)
    body_Ensures body (some (name, spelled)) =
        named_param-Ensures (trim_space name) spelled (trim_space_idem name)

    shorter : (body rest : Text) → s ≡ body ++ b'}' ∷ rest → length rest < length s
    shorter body rest e = omega (arith, ap length e, length-append body (b'}' ∷ rest))

module _ {ℓ} {S : Type ℓ} (on_text : Text → S → S) (on_param : Param → S → Result ScanError S) where
  -- The rounds of the loop.
  module _ (f c : ℕ) (s text : Text) (st : S) where
    pub scan_loop_comment :
        {k rest : Text}
        → skip_comment (c ∷ s) ≡ some (k, rest)
        → scan_loop on_text on_param (suc f) (c ∷ s) text st
          ≡ scan_loop on_text on_param f rest (text ++ k) st
    unfolding scan_loop
    scan_loop_comment e = rw (e, scan_loop)

    pub scan_loop_literal :
        {k rest : Text}
        → skip_comment (c ∷ s) ≡ none
        → skip_literal (c ∷ s) ≡ some (k, rest)
        → scan_loop on_text on_param (suc f) (c ∷ s) text st
          ≡ scan_loop on_text on_param f rest (text ++ k) st
    unfolding scan_loop
    scan_loop_literal e e' = rw (e, e', scan_loop)

    pub scan_loop_param :
        skip_comment (c ∷ s) ≡ none
        → skip_literal (c ∷ s) ≡ none
        → (c == b'{') ≡ true
        → scan_loop on_text on_param (suc f) (c ∷ s) text st ≡ (
            read_param s >>= λ (p, rest). on_param p (emit_text on_text on_param text st) >>= λ st'.
            scan_loop on_text on_param f rest [] st')
    unfolding scan_loop
    scan_loop_param e e' open_brace = rw (e, e', open_brace, scan_loop)

    pub scan_loop_byte :
        skip_comment (c ∷ s) ≡ none
        → skip_literal (c ∷ s) ≡ none
        → (c == b'{') ≡ false
        → scan_loop on_text on_param (suc f) (c ∷ s) text st
          ≡ scan_loop on_text on_param f s (text ++ c ∷ []) st
    unfolding scan_loop
    scan_loop_byte e e' other = rw (e, e', other, scan_loop)
