-- ===== src/Parser/Prepare.antt =====
-- `prepareSQL` of internal/parser/parser.go, and the placeholders of internal/parser/interface.go.
use pggen.Prelude.{
  ℕ, suc, ◌-◌, ◌&&◌, List, [], ◌∷◌, ◌++◌, Option, none, some, leb, if◌then◌else◌, length, take,
  drop,
}
use pggen.Prelude.Decimal.{itoa_ℕ}
use pggen.Prelude.Text.{Text, codes, eq}

-- `argPos`, relative to the start of the query.
pub record ArgPos : Type 0 where
  pub lo : ℕ
  pub hi : ℕ
  pub name : Text

-- `Placeholder`.
abbrev pub Placeholder : Type 0
Placeholder = Text → ℕ → Text

-- `PostgresPlaceholder(_, ordinal)`.
unfoldable pub postgres_placeholder : Placeholder
postgres_placeholder name ordinal = b'$' ∷ itoa_ℕ ordinal

-- `ClickHousePlaceholder(name, _)`.
unfoldable pub click_house_placeholder : Placeholder
click_house_placeholder name ordinal = codes "pggen.arg('" ++ (name ++ codes "')")

-- A read of the map `paramOrders`.
unfoldable pub order_of : Text → List (Text × ℕ) → Option ℕ
unfolding eq
order_of name [] = none
order_of name ((n, idx) ∷ orders) = if eq n name then some idx else order_of name orders

-- The state of the loop that numbers the parameters: `paramOrders`, `params` and `idx`.
pub record Numbering : Type 0 where
  pub orders : List (Text × ℕ)
  pub params : List Text
  pub idx : ℕ

abbrev pub unnumbered : Numbering
unnumbered = record { orders = []; params = []; idx = 1 }

-- One round of that loop.
unfoldable pub number_name : Numbering → Text → Numbering
unfolding order_of
number_name st name = elim (order_of name st.orders) [
  | some idx ↦ st
  | none ↦ record {
    orders = (name, st.idx) ∷ st.orders;
    params = st.params ++ name ∷ [];
    idx = suc st.idx;
  }
]

unfoldable pub number_args : Numbering → List ArgPos → Numbering
unfolding number_name
number_args st [] = st
number_args st (arg ∷ args) = number_args (number_name st arg.name) args

-- `bs[lo:hi]`; `none` is a panic.
unfoldable pub slice_of : Text → ℕ → ℕ → Option Text
slice_of bs lo hi =
    if leb lo hi && leb hi (length bs) then some (take (hi - lo) (drop lo bs)) else none

-- `paramOrders[name]`, zero for a name that the map lacks.
unfoldable pub ordinal : Text → List (Text × ℕ) → ℕ
unfolding order_of
ordinal name orders = elim (order_of name orders) [ none ↦ 0 | some idx ↦ idx ]

-- The loop that writes the query, and the write behind it.
unfoldable pub splice : Placeholder → List (Text × ℕ) → Text → List ArgPos → ℕ → Text → Option Text
unfolding slice_of ordinal
splice ph orders bs [] prev sb = elim (slice_of bs prev (length bs)) [
  | none ↦ none
  | some tail ↦ some (sb ++ tail)
]
splice ph orders bs (arg ∷ args) prev sb = elim (slice_of bs prev arg.lo) [
  | none ↦ none
  | some part ↦
      splice ph orders bs args arg.hi (sb ++ (part ++ ph arg.name (ordinal arg.name orders)))
]

-- `prepareSQL(sql, args, ph)`; `none` is a panic.
unfoldable pub prepare_sql : Placeholder → Text → List ArgPos → Option (Text × List Text)
unfolding number_args splice
prepare_sql ph sql [] = some (sql, [])
prepare_sql ph sql (arg ∷ args) =
    let st = number_args unnumbered (arg ∷ args) in
    elim (splice ph st.orders sql (arg ∷ args) 0 []) [
      | none ↦ none
      | some out ↦ some (out, st.params)
    ]
