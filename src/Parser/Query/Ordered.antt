-- ===== src/Parser/Query/Ordered.antt =====
-- Arguments in order, for which `prepareSQL` does not panic, and where a call begins in a fragment.
use mathlib.Core.Path.{subst}
use pggen.Prelude.{
  ℕ, suc, ◌-◌, ◌≤◌, ◌≡◌, refl, sym, ◌≢◌, inl, inr, Bool, true, false, ◌&&◌, ◌||◌, List, [], ◌∷◌,
  ◌++◌, Option, none, some, arith, ◌==◌, leb, if◌then◌else◌, length, take, drop, Bool-cases,
}
use pggen.Prelude.Text.{Text, codes, eq, eq_iff, cut_prefix, has_prefix}
use pggen.Parser.Prepare.{
  ArgPos, Placeholder, slice_of, ordinal, splice, prepare_sql, number_args, unnumbered,
}
use pggen.Parser.Query.{has_suffix, last_index, has_pggen_arg}

-- The arguments stand one behind the other between two offsets.
abbrev pub Ordered : ℕ → List ArgPos → ℕ → Type 0
Ordered lo [] hi = lo ≤ hi
Ordered lo (arg ∷ args) hi = (lo ≤ arg.lo) × (arg.lo ≤ arg.hi) × Ordered arg.hi args hi

pub Ordered-snoc :
    (lo : ℕ) (args : List ArgPos) (mid : ℕ) (arg : ArgPos)
    → Ordered lo args mid
    → mid ≤ arg.lo
    → arg.lo ≤ arg.hi
    → Ordered lo (args ++ arg ∷ []) arg.hi
Ordered-snoc lo [] mid arg h from to = (omega arith, to, omega arith)
Ordered-snoc lo (a ∷ args) mid arg (h0, h1, h2) from to =
    (h0, h1, Ordered-snoc a.hi args mid arg h2 from to)

pub Ordered-more :
    (lo : ℕ) (args : List ArgPos) (hi hi' : ℕ) → Ordered lo args hi → hi ≤ hi' → Ordered lo args hi'
Ordered-more lo [] hi hi' h le = omega arith
Ordered-more lo (a ∷ args) hi hi' (h0, h1, h2) le = (h0, h1, Ordered-more a.hi args hi hi' h2 le)

Ordered-ends : (lo : ℕ) (args : List ArgPos) (hi : ℕ) → Ordered lo args hi → lo ≤ hi
Ordered-ends lo [] hi h = h
Ordered-ends lo (a ∷ args) hi (h0, h1, h2) = omega (arith, h0, h1, Ordered-ends a.hi args hi h2)

pub slice_of-within :
    (bs : Text) (lo hi : ℕ)
    → lo ≤ hi
    → hi ≤ length bs
    → slice_of bs lo hi ≡ some (take (hi - lo) (drop lo bs))
unfolding slice_of
slice_of-within bs lo hi le le' =
    let within : (leb lo hi && leb hi (length bs)) ≡ true = ground arith in rw within refl

splice-Ordered :
    (ph : Placeholder) (orders : List (Text × ℕ)) (bs : Text) (args : List ArgPos) (prev : ℕ)
    (sb : Text)
    → Ordered prev args (length bs)
    → splice ph orders bs args prev sb ≢ none
unfolding splice
splice-Ordered ph orders bs [] prev sb h =
    rw (slice_of-within bs prev (length bs) h (omega arith), splice) (cc)
splice-Ordered ph orders bs (arg ∷ args) prev sb (h0, h1, h2) =
    let end = Ordered-ends arg.hi args (length bs) h2 in
    rw (slice_of-within bs prev arg.lo h0 (omega (arith, h1, end)), splice)
      (splice-Ordered ph orders bs args arg.hi
        (sb ++ (take (arg.lo - prev) (drop prev bs) ++ ph arg.name (ordinal arg.name orders))) h2)

pub prepare_sql-Ordered :
    (ph : Placeholder) (sql : Text) (args : List ArgPos)
    → Ordered 0 args (length sql)
    → prepare_sql ph sql args ≢ none
unfolding prepare_sql
prepare_sql-Ordered ph sql [] h = cc
prepare_sql-Ordered ph sql (arg ∷ args) h =
    let st = number_args unnumbered (arg ∷ args) in
    go (splice ph st.orders sql (arg ∷ args) 0 []) st.params
      (splice-Ordered ph st.orders sql (arg ∷ args) 0 [] h)
  where
    go :
        (o : Option Text) (params : List Text)
        → o ≢ none
        → ◌≢◌ {A = Option (Text × List Text)}
            (elim o [ none ↦ none | some out ↦ some (out, params) ])
            none
    go none params ne = absurd (ne refl)
    go (some out) params ne = cc

pub last_index-bound : (s sub : Text) (i : ℕ) → last_index s sub ≡ some i → i ≤ length s
unfolding last_index
last_index-bound [] sub i e = ground arith
last_index-bound (c ∷ s) sub i e = go (last_index s sub) (last_index-bound s sub) e
  where
    go :
        (o : Option ℕ)
        → ((j : ℕ) → o ≡ some j → j ≤ length s)
        → elim o [ some i ↦ some (suc i) | none ↦ if has_prefix (c ∷ s) sub then some 0 else none ]
          ≡ some i
        → i ≤ suc (length s)
    go none ih e2 = ground arith
    go (some j) ih e2 = ground (arith, ih j refl)

other_front : (c : ℕ) (s : Text) → (c == b'p') ≡ false → has_prefix (c ∷ s) (codes "pggen") ≡ false
unfolding has_prefix cut_prefix
other_front c s e = rw (e, has_prefix, cut_prefix) refl

paren_front :
    (c : ℕ) (s : Text)
    → has_prefix (c ∷ s) (codes ")") ≡ true
    → has_prefix (c ∷ s) (codes "pggen") ≡ false
unfolding has_prefix cut_prefix
paren_front c s h = go (c == b')') refl h
  where
    go :
        (b : Bool)
        → (c == b')') ≡ b
        → ◌≡◌ {A = Bool} (elim (if b then some s else none) [ none ↦ false | some _ ↦ true ]) true
        → has_prefix (c ∷ s) (codes "pggen") ≡ false
    go true e h = other_front c s (ground arith)
    go false e h = cc

-- A fragment that begins with a closing parenthesis has no call at its front.
pub last_index-paren :
    (s : Text) (i : ℕ)
    → has_prefix s (codes ")") ≡ true
    → last_index s (codes "pggen") ≡ some i
    → 1 ≤ i
unfolding last_index has_prefix cut_prefix
last_index-paren [] i h e = cc
last_index-paren (c ∷ s) i h e = go (last_index s (codes "pggen")) e
  where
    go :
        (o : Option ℕ)
        → elim o [
          | some i ↦ some (suc i)
          | none ↦ if has_prefix (c ∷ s) (codes "pggen") then some 0 else none
        ]
          ≡ some i
        → 1 ≤ i
    go none e2 = ground (arith, paren_front c s h)
    go (some j) e2 = ground arith

-- A text that ends with a suffix that begins with a substring has the substring.
last_index-has_suffix :
    (s suffix sub : Text)
    → has_suffix s suffix ≡ true
    → suffix ≢ []
    → has_prefix suffix sub ≡ true
    → last_index s sub ≢ none
unfolding last_index has_suffix
last_index-has_suffix [] [] sub h ne hp = absurd (ne refl)
last_index-has_suffix [] (d ∷ suffix) sub h ne hp = cc
last_index-has_suffix (c ∷ s) suffix sub h ne hp =
    go (last_index s sub) (has_prefix (c ∷ s) sub) (has_suffix s suffix)
      (λ t. last_index-has_suffix s suffix sub t ne hp)
      (λ t. subst (λ x. has_prefix x sub ≡ true) (sym ((eq_iff (c ∷ s) suffix).0 t)) hp) h
  where
    go :
        (o : Option ℕ) (b b' : Bool)
        → (b' ≡ true → o ≢ none)
        → (eq (c ∷ s) suffix ≡ true → b ≡ true)
        → (eq (c ∷ s) suffix || b') ≡ true
        → ◌≢◌ {A = Option ℕ}
            (elim o [ some i ↦ some (suc i) | none ↦ if b then some 0 else none ])
            none
    go (some i) b b' ih pre t = cc
    go none true b' ih pre t = cc
    go none false b' ih pre t = elim (Bool-cases (eq (c ∷ s) suffix)) [
      | inl e ↦ cc (pre e)
      | inr e ↦ absurd (ih (ground (arith, t, e)) refl)
    ]

pub has_pggen_arg-last_index :
    (lit : Text) → has_pggen_arg lit ≡ true → last_index lit (codes "pggen") ≢ none
unfolding has_pggen_arg has_prefix cut_prefix
has_pggen_arg-last_index lit h = elim (Bool-cases (has_suffix lit (codes "pggen.arg("))) [
  | inl e ↦ last_index-has_suffix lit (codes "pggen.arg(") (codes "pggen") e (cc) refl
  | inr e ↦
      last_index-has_suffix lit (codes "pggen.arg (") (codes "pggen") (ground (arith, h, e)) (cc)
        refl
]
