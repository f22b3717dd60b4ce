-- ===== src/Prelude/Result.antt =====
-- Go's `(value, error)` results: one of the two is there. Each component has its own errors.
use mathlib.Core.Path.{◌≡◌, refl, subst}
use mathlib.Core.Logic.{◌⊎◌, inl, inr}

pub data Result {ℓ κ} (E : Type κ) (A : Type ℓ) : Type (ℓ ⊔ κ) where
  err : E → Result E A
  ok : A → Result E A

module _ {ℓ κ μ} {E : Type κ} {A : Type ℓ} {B : Type μ} where
  -- The rest of a function that returns an error when a call does.
  infixl 5 ◌>>=◌
  abbrev pub ◌>>=◌ : Result E A → (A → Result E B) → Result E B
  err why >>= next = err why
  ok value >>= next = next value

  pub >>=-cong :
      (m : Result E A) {f g : A → Result E B} → ((a : A) → f a ≡ g a) → (m >>= f) ≡ (m >>= g)
  >>=-cong (ok a) h = h a
  >>=-cong (err e) h = refl

  -- The error of another component, wrapped as one of this one's (`fmt.Errorf("...: %w", err)`).
  abbrev pub map_err : (E → B) → Result E A → Result B A
  map_err f (ok a) = ok a
  map_err f (err e) = err (f e)

pub Result-cases {ℓ κ} :
    {E : Type κ} {A : Type ℓ} (r : Result E A) → ((a : A) × (r ≡ ok a)) ⊎ ((e : E) × (r ≡ err e))
Result-cases (ok a) = inl (a, refl)
Result-cases (err e) = inr (e, refl)

-- What holds of the value of a run that returns one.
abbrev pub Returns {ℓ κ μ} : {E : Type μ} {A : Type ℓ} → (A → Type κ) → Result E A → Type κ
Returns P (ok a) = P a
Returns P (err e) = Unit

pub Returns-map {ℓ κ κ' μ} :
    {E : Type μ} {A : Type ℓ} (P : A → Type κ) (Q : A → Type κ') (r : Result E A)
    → ((a : A) → P a → Q a)
    → Returns P r
    → Returns Q r
Returns-map P Q (ok a) k h = k a h
Returns-map P Q (err e) k h = tt

pub Returns-all {ℓ μ} : {E : Type μ} {A : Type ℓ} (r : Result E A) → Returns (λ a. Unit {0}) r
Returns-all (ok a) = tt
Returns-all (err e) = tt

pub Returns-bind {ℓ κ ℓ' κ' μ} :
    {E : Type μ} {A : Type ℓ} {B : Type ℓ'} (P : A → Type κ) (Q : B → Type κ') (r : Result E A)
    (f : A → Result E B)
    → Returns P r
    → ((a : A) → P a → Returns Q (f a))
    → Returns Q (r >>= f)
Returns-bind P Q (ok a) f h k = k a h
Returns-bind P Q (err e) f h k = tt

pub Returns-ok {ℓ κ μ} :
    {E : Type μ} {A : Type ℓ} (P : A → Type κ) {r : Result E A} {a : A}
    → Returns P r
    → r ≡ ok a
    → P a
Returns-ok P h e = subst (Returns P) e h
