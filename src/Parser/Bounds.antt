-- ===== src/Parser/Bounds.antt =====
-- The numbers that `prepareSQL` hands to the placeholders lie in the list of parameters.
use mathlib.Core.Option
use mathlib.Core.Path.{subst}
use pggen.Prelude.{
  ℕ, suc, ◌-◌, ◌≤◌, ◌<◌, ◌≡◌, ap, sym, ◌∙◌, inl, inr, List, [], ◌∷◌, none, some, arith, length,
  get_elem?, Bool-cases, Option-cases, All,
}
use pggen.Prelude.Text.{Text, eq, eq_iff, eq_refl}
use pggen.Parser.Prepare.{ArgPos, Numbering, order_of, unnumbered, number_name, number_args}
use pggen.Parser.Numbering.{
  position-get_elem?, IsNumbering, unnumbered-IsNumbering, number_args-IsNumbering,
  number_name-IsNumbering, position_numbered, number_new, number_old,
}

order_of_new :
    (n m : Text) (idx : ℕ) (orders : List (Text × ℕ)) {k : ℕ}
    → order_of n orders ≡ some k
    → order_of m orders ≡ none
    → order_of n ((m, idx) ∷ orders) ≡ some k
unfolding order_of
order_of_new n m idx orders {k} e fresh = elim (Bool-cases (eq m n)) [
  | inl q ↦
      absurd
        (clash (sym fresh ∙ subst (λ x. order_of x orders ≡ some k) (sym ((eq_iff m n).0 q)) e))
  | inr q ↦ rw q e
]
  where
    clash : {k : ℕ} → none ≡ some k → ⊥
    clash h = cc

number_name-keeps :
    (st : Numbering) (n m : Text) {k : ℕ}
    → IsNumbering st
    → order_of n st.orders ≡ some k
    → order_of n (number_name st m).orders ≡ some k
number_name-keeps st n m inv e = elim (Option-cases (order_of m st.orders)) [
  | inl fresh ↦ rw (number_new inv m fresh) (order_of_new n m st.idx st.orders e fresh)
  | inr (j, old) ↦ rw (number_old inv m old) e
]

number_args-keeps :
    (st : Numbering) (args : List ArgPos) (n : Text) {k : ℕ}
    → IsNumbering st
    → order_of n st.orders ≡ some k
    → order_of n (number_args st args).orders ≡ some k
unfolding number_args
number_args-keeps st [] n inv e = e
number_args-keeps st (arg ∷ args) n inv e =
    number_args-keeps (number_name st arg.name) args n (number_name-IsNumbering st arg.name inv)
      (number_name-keeps st n arg.name inv e)

number_name-numbers :
    (st : Numbering) (n : Text)
    → IsNumbering st
    → (k : ℕ) × (order_of n (number_name st n).orders ≡ some k)
number_name-numbers st n inv = elim (Option-cases (order_of n st.orders)) [
  | inl fresh ↦ (st.idx, rw (number_new inv n fresh) (unfold order_of in rw (eq_refl n)))
  | inr (j, old) ↦ (j, rw (number_old inv n old) old)
]

-- A number that stands for a name in a list of parameters.
pub record Numbers (params : List Text) (name : Text) (k : ℕ) : Type 0 where
  pub positive : 0 < k
  pub in_range : k ≤ length params
  pub names_it : get_elem? params (k - 1) ≡ some name

order_of-Numbers :
    {st : Numbering} (name : Text) {k : ℕ}
    → IsNumbering st
    → order_of name st.orders ≡ some k
    → Numbers st.params name k
order_of-Numbers {st} name {k} inv e =
    let (i, p) = position_numbered inv name e in
    let (lt, at_) = position-get_elem? name st.params p in
    let k_eq : some k ≡ some (suc i) = sym e ∙ inv.ordered name ∙ ap (Option.map suc) p in
    go i lt at_ (ground arith)
  where
    go :
        (i : ℕ)
        → i < length st.params
        → get_elem? st.params i ≡ some name
        → k ≡ suc i
        → Numbers st.params name k
    go i lt at_ k_eq =
        let less : k - 1 ≡ i = omega arith in
        record { positive = omega arith; in_range = omega arith; names_it = rw less at_ }

number_args-Numbers :
    (st : Numbering) (args : List ArgPos)
    → IsNumbering st
    → All
        (λ arg.
          (k : ℕ) × (order_of arg.name (number_args st args).orders ≡ some k)
          × Numbers (number_args st args).params arg.name k)
        args
unfolding number_args
number_args-Numbers st [] inv = tt
number_args-Numbers st (arg ∷ args) inv =
    let next = number_name-IsNumbering st arg.name inv in
    let (k, e) = number_name-numbers st arg.name inv in
    let kept = number_args-keeps (number_name st arg.name) args arg.name next e in
    (
      (
        k,
        kept,
        order_of-Numbers arg.name (number_args-IsNumbering (number_name st arg.name) args next)
            kept,
      ),
      number_args-Numbers (number_name st arg.name) args next,
    )

-- Every call of pggen.arg gets a number between one and the count of the parameters, and the
-- parameter at that place has the call's name.
pub number_args_bounds :
    (args : List ArgPos)
    → All
        (λ arg.
          (k : ℕ) × (order_of arg.name (number_args unnumbered args).orders ≡ some k)
          × Numbers (number_args unnumbered args).params arg.name k)
        args
number_args_bounds args = number_args-Numbers unnumbered args unnumbered-IsNumbering
