-- ===== src/Resolve/Literal.antt =====
-- A type that has a Go type has the literal that inference binds for a parameter of it.
use mathlib.Core.Path.{subst}
use pggen.Prelude.{
  ◌≡◌, refl, ap, ◌≢◌, ◌⊎◌, inl, inr, List, [], ◌∷◌, Option, none, some, arith, Bool-cases, All,
}
use pggen.Prelude.Result.{Result, ok, err, ◌>>=◌}
use pggen.Prelude.Text.{Text, codes, eq, eq_iff, contains}
use pggen.Ch.Types.{ChType, payload}
use pggen.Ch.Parse.{parse}
use pggen.Ch.Parse.Canonical.{IsCanonical}
use pggen.Ch.Parse.Sound.{parse-IsCanonical}
use pggen.Ch.Zero.{zero_literal, scalar_zero}
use pggen.GoType.{GoType, pointer_type}
use pggen.Resolve.{
  ResolveError, no_go_type, ch_scalar_types, scalar_type, find_ch_known_type, known_type,
  overridden, resolve,
}

-- No overrides.
abbrev pub no_overrides : Text → Option Text
no_overrides name = none

-- What holds of each name of a table holds of a name that is found there.
scalar_type-All :
    (P : Text → Type 0) (types : List (Text × GoType)) (name : Text) (g : GoType)
    → All (λ e. P e.0) types
    → scalar_type types name ≡ some g
    → P name
unfolding scalar_type
scalar_type-All P [] name g h e = cc
scalar_type-All P ((n, t) ∷ types) name g h e = elim (Bool-cases (eq n name)) [
  | inl q ↦ subst P ((eq_iff n name).0 q) h.0
  | inr q ↦ scalar_type-All P types name g h.1 (ground (arith, e, q))
]

-- A scalar that is no identifier has a literal.
abbrev pub IsBound : Text → Type 0
IsBound name = (name ≡ codes "Identifier") ⊎ ((lit : Text) × (scalar_zero name ≡ ok lit))

table_IsBound : All (λ e. IsBound e.0) ch_scalar_types
unfolding scalar_zero eq contains
table_IsBound = (
  inr ([], refl),
  (
    inr (codes "false", refl),
    (
      inl refl,
      (
        inr (codes "0", refl),
        (
          inr (codes "0", refl),
          (
            inr (codes "0", refl),
            (
              inr (codes "0", refl),
              (
                inr (codes "0", refl),
                (
                  inr (codes "0", refl),
                  (
                    inr (codes "0", refl),
                    (
                      inr (codes "0", refl),
                      (
                        inr (codes "0", refl),
                        (
                          inr (codes "0", refl),
                          (
                            inr (codes "0", refl),
                            (
                              inr (codes "0", refl),
                              (
                                inr (codes "0", refl),
                                (
                                  inr (codes "0", refl),
                                  (
                                    inr (codes "1970-01-01", refl),
                                    (
                                      inr (codes "1970-01-01", refl),
                                      (
                                        inr (codes "1970-01-01 00:00:00", refl),
                                        (
                                          inr (codes "1970-01-01 00:00:00", refl),
                                          (
                                            inr (
                                              codes "00000000-0000-0000-0000-000000000000",
                                              refl,
                                            ),
                                            (
                                              inr (codes "0.0.0.0", refl),
                                              (inr (codes "::", refl), tt),
                                            ),
                                          ),
                                        ),
                                      ),
                                    ),
                                  ),
                                ),
                              ),
                            ),
                          ),
                        ),
                      ),
                    ),
                  ),
                ),
              ),
            ),
          ),
        ),
      ),
    ),
  ),
)

structural : (t : ChType) (r : Result ResolveError GoType) → overridden none t r ≡ r
unfolding overridden
structural t r = refl

bind-ok :
    {A B : Type 0} {E : Type 0} (r : Result E A) (k : A → Result E B) {b : B}
    → (r >>= k) ≡ ok b
    → (a : A) × (r ≡ ok a)
bind-ok (ok a) k e = (a, refl)
bind-ok (err why) k e = cc

scalar_literal :
    (name : Text) (g : GoType)
    → name ≢ codes "Identifier"
    → known_type (ChType.scalar name) ≡ ok g
    → (lit : Text) × (scalar_zero name ≡ ok lit)
unfolding known_type find_ch_known_type
scalar_literal name g ne e = go (scalar_type ch_scalar_types name) refl e
  where
    go :
        (o : Option GoType)
        → scalar_type ch_scalar_types name ≡ o
        → ◌≡◌ {A = Result ResolveError GoType}
            (elim o [ none ↦ err (no_go_type (ChType.scalar name)) | some g ↦ ok g ])
            (ok g)
        → (lit : Text) × (scalar_zero name ≡ ok lit)
    go none h e = cc
    go (some g') h e = elim (scalar_type-All IsBound ch_scalar_types name g' table_IsBound h) [
      | inl i ↦ absurd (ne i)
      | inr found ↦ found
    ]

literal_of :
    (t : ChType) (g : GoType)
    → IsCanonical t
    → payload t ≢ ChType.scalar (codes "Identifier")
    → resolve no_overrides t ≡ ok g
    → (lit : Text) × (zero_literal t ≡ ok lit)
unfolding resolve overridden payload zero_literal
literal_of (ChType.low_cardinality t) g (IsCanonical.low_cardinality c) ne e = literal_of t g c ne e
literal_of (ChType.nullable t) g (IsCanonical.nullable c) ne e =
    let (elem, e') = bind-ok (resolve no_overrides t) (λ elem. ok (pointer_type elem)) e in
    literal_of t elem c ne e'
literal_of (ChType.array t) g c ne e = (codes "[]", refl)
literal_of (ChType.map k v) g c ne e = (codes "{}", refl)
literal_of (ChType.enum bits []) g (IsCanonical.enum full items) ne e = absurd (full refl)
literal_of (ChType.enum bits ((label, v) ∷ items)) g c ne e = (label, refl)
literal_of (ChType.tuple es) g c ne e = cc
literal_of (ChType.unsupported raw) g c ne e = cc
literal_of (ChType.scalar name) g c ne e = scalar_literal name g (λ i. ne (ap ChType.scalar i)) e
literal_of (ChType.fixed_string n) g c ne e = ([], refl)
literal_of (ChType.decimal p s) g c ne e = (codes "0", refl)
literal_of (ChType.date_time tz) g c ne e = (codes "1970-01-01 00:00:00", refl)
literal_of (ChType.date_time64 p tz) g c ne e = (codes "1970-01-01 00:00:00", refl)

-- A type that is read from its name, and has a Go type without an override, has the literal
-- that inference binds for a parameter of it, unless it is an Identifier below its wrappers,
-- which is not bound.
pub zero_literal-resolve :
    (name : Text) (t : ChType) (g : GoType)
    → parse name ≡ ok t
    → payload t ≢ ChType.scalar (codes "Identifier")
    → resolve no_overrides t ≡ ok g
    → (lit : Text) × (zero_literal t ≡ ok lit)
zero_literal-resolve name t g h ne e = literal_of t g (parse-IsCanonical name h) ne e
