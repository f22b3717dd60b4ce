-- ===== src/Parser/Numbering.antt =====
-- The numbers that `prepareSQL` gives the parameters.
use mathlib.Core.Option
use mathlib.Core.Path.{subst}
use pggen.Prelude.{
  ℕ, zero, suc, ◌<◌, ◌≡◌, refl, ap, sym, ◌∙◌, inl, inr, false, List, [], ◌∷◌, ◌++◌, map, Option,
  none, some, arith, if◌then◌else◌, length, length-append, get_elem?, Bool-cases, Option-cases,
  append_assoc, append-nil,
}
use pggen.Prelude.Text.{Text, eq, eq_iff}
use pggen.Parser.Prepare.{ArgPos, Numbering, order_of, unnumbered, number_name, number_args}

-- Where a name stands in a list.
abbrev pub position : Text → List Text → Option ℕ
position name [] = none
position name (n ∷ ns) = if eq n name then some 0 else Option.map suc (position name ns)

-- The names of a list that the names before it lack, each once, in the order of their first appearance.
abbrev pub firsts : List Text → List Text → List Text
firsts before [] = []
firsts before (n ∷ ns) = elim (position n before) [
  | some i ↦ firsts before ns
  | none ↦ n ∷ firsts (before ++ n ∷ []) ns
]

position-append :
    (name : Text) (ns : List Text) (n : Text)
    → position name (ns ++ n ∷ []) ≡ elim (position name ns) [
      | some i ↦ some i
      | none ↦ if eq n name then some (length ns) else none
    ]
position-append name [] n = ground arith
position-append name (m ∷ ns) n = elim (Bool-cases (eq m name)) [
  | inl e ↦ rw e refl
  | inr e ↦ elim (Option-cases (position name ns)) [
    | inl p ↦ elim (Bool-cases (eq n name)) [
      | inl q ↦ rw (e, position-append name ns n, p, q) refl
      | inr q ↦ rw (e, position-append name ns n, p, q) refl
    ]
    | inr (i, p) ↦ rw (e, position-append name ns n, p) refl
  ]
]

-- The state of the loop: the next number, and the map of the numbers given.
pub record IsNumbering (st : Numbering) : Type 0 where
  pub counted : st.idx ≡ suc (length st.params)
  pub ordered : (name : Text) → order_of name st.orders ≡ Option.map suc (position name st.params)

pub unnumbered-IsNumbering : IsNumbering unnumbered
unnumbered-IsNumbering = record { counted = omega arith; ordered = λ name. unfold order_of in refl }

-- A name that is not numbered yet is not among the parameters, and the other way.
module _ {st : Numbering} (inv : IsNumbering st) (name : Text) where
  position_unnumbered : order_of name st.orders ≡ none → position name st.params ≡ none
  position_unnumbered e = go (position name st.params) (sym (inv.ordered name) ∙ e)
    where
      go : (o : Option ℕ) → Option.map suc o ≡ none → o ≡ none
      go none h = refl
      go (some i) h = cc

  pub position_numbered :
      {k : ℕ} → order_of name st.orders ≡ some k → (i : ℕ) × (position name st.params ≡ some i)
  position_numbered {k} e = go (position name st.params) (sym (inv.ordered name) ∙ e)
    where
      go : (o : Option ℕ) → Option.map suc o ≡ some k → (i : ℕ) × (o ≡ some i)
      go none h = cc
      go (some i) h = (i, refl)

  pub number_new :
      order_of name st.orders ≡ none
      → number_name st name ≡ record {
        orders = (name, st.idx) ∷ st.orders;
        params = st.params ++ name ∷ [];
        idx = suc st.idx;
      }
  unfolding number_name
  number_new e = rw (e, number_name)

  pub number_old : {k : ℕ} → order_of name st.orders ≡ some k → number_name st name ≡ st
  unfolding number_name
  number_old e = rw (e, number_name)

  added-IsNumbering :
      order_of name st.orders ≡ none
      → IsNumbering (record {
        orders = (name, st.idx) ∷ st.orders;
        params = st.params ++ name ∷ [];
        idx = suc st.idx;
      })
  added-IsNumbering e = record {
    counted = omega (arith, inv.counted, length-append st.params (name ∷ []));
    ordered = λ n.
        unfold order_of in
        elim (Bool-cases (eq name n)) [
          | inl q ↦
              let same : position n st.params ≡ none =
                subst (λ m. position m st.params ≡ none) ((eq_iff name n).0 q)
                  (position_unnumbered e) in
              rw (q, position-append n st.params name, same, q) (ap some inv.counted)
          | inr q ↦ rw (q, position-append n st.params name) (inv.ordered n ∙ kept n q)
        ];
  }
    where
      kept :
          (n : Text)
          → eq name n ≡ false
          → Option.map suc (position n st.params)
            ≡ Option.map suc (elim (position n st.params) [
              | some i ↦ some i
              | none ↦ if eq name n then some (length st.params) else none
            ])
      kept n q = elim (Option-cases (position n st.params)) [
        | inl p ↦ rw (p, q) refl
        | inr (i, p) ↦ rw p refl
      ]

pub number_name-IsNumbering :
    (st : Numbering) (name : Text) → IsNumbering st → IsNumbering (number_name st name)
number_name-IsNumbering st name inv = elim (Option-cases (order_of name st.orders)) [
  | inl e ↦ rw (number_new inv name e) (added-IsNumbering inv name e)
  | inr (k, e) ↦ rw (number_old inv name e) inv
]

pub number_args-IsNumbering :
    (st : Numbering) (args : List ArgPos) → IsNumbering st → IsNumbering (number_args st args)
unfolding number_args
number_args-IsNumbering st [] inv = inv
number_args-IsNumbering st (arg ∷ args) inv =
    number_args-IsNumbering (number_name st arg.name) args (number_name-IsNumbering st arg.name inv)

abbrev pub names_of : List ArgPos → List Text
names_of args = map (λ arg. arg.name) args

pub number_args-firsts :
    (st : Numbering) (args : List ArgPos)
    → IsNumbering st
    → (number_args st args).params ≡ st.params ++ firsts st.params (names_of args)
unfolding number_args
number_args-firsts st [] inv = sym (append-nil st.params)
number_args-firsts st (arg ∷ args) inv =
    number_args-firsts (number_name st arg.name) args (number_name-IsNumbering st arg.name inv)
    ∙ elim (Option-cases (order_of arg.name st.orders)) [
      | inl e ↦
          rw (number_new inv arg.name e, position_unnumbered inv arg.name e, firsts)
            (append_assoc st.params (arg.name ∷ [])
              (firsts (st.params ++ arg.name ∷ []) (names_of args)))
      | inr (k, e) ↦
          let (i, p) = position_numbered inv arg.name e in
          rw (number_old inv arg.name e, p, firsts) refl
    ]

-- The place of a name in a list, counted from one.
abbrev pub place : Text → List Text → ℕ
place name ns = elim (position name ns) [ none ↦ 0 | some i ↦ suc i ]

pub position-get_elem? :
    (name : Text) (ns : List Text) {i : ℕ}
    → position name ns ≡ some i
    → (i < length ns) × (get_elem? ns i ≡ some name)
position-get_elem? name [] e = cc
position-get_elem? name (n ∷ ns) {i} e = elim (Bool-cases (eq n name)) [
  | inl q ↦
      here i ((eq_iff n name).0 q)
        (sym (ap (λ b. if b then some 0 else Option.map suc (position name ns)) q) ∙ e)
  | inr q ↦
      there i (position name ns) (λ j p. position-get_elem? name ns p)
        (sym (ap (λ b. if b then some 0 else Option.map suc (position name ns)) q) ∙ e)
]
  where
    here :
        (i : ℕ)
        → n ≡ name
        → some 0 ≡ some i
        → (i < length (n ∷ ns)) × (get_elem? (n ∷ ns) i ≡ some name)
    here zero q h = (omega arith, ap some q)
    here (suc i) q h = cc

    there :
        (i : ℕ) (o : Option ℕ)
        → ((j : ℕ) → o ≡ some j → (j < length ns) × (get_elem? ns j ≡ some name))
        → Option.map suc o ≡ some i
        → (i < length (n ∷ ns)) × (get_elem? (n ∷ ns) i ≡ some name)
    there i none h e' = cc
    there zero (some j) h e' = cc
    there (suc i) (some j) h e' = let (lt, at_) = h i (ground arith) in (omega arith, at_)
