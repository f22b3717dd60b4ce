-- ===== src/Ch/Parse/TupleTrip.antt =====
-- The elements of a tuple are read back, named and unnamed ones.
use pggen.Prelude.{
  ℕ, zero, suc, ◌+◌, ◌≤◌, ◌<◌, ◌≡◌, refl, ap, ◌∙◌, ◌≢◌, ◌⊎◌, inl, inr, true, false, [], ◌∷◌, ◌++◌,
  append_assoc, arith, ◌==◌, ◌||◌, length, length-append, All,
}
use pggen.Prelude.Result.{ok}
use pggen.Prelude.Text.{Text, codes}
use pggen.Ch.Types.{ChType, Elems, tuple, no_elems, elem, to_string}
use pggen.Ch.Parse.Lexer.{accept, skip_space, is_ident_byte}
use pggen.Ch.Parse.Ensures.{IsName}
use pggen.Ch.Parse.Spelling.{stops_at, parse_ident-IsName, skip_space-IsName}
use pggen.Ch.Parse.Supported.{Spelled}
use pggen.Ch.Parse.{tuple_args, tuple_item, tuple_loop, ends_type, parse_type}
use pggen.Ch.Parse.Trips.{
  stops, stops_ident, Trip, parse_type_args, skip_space-Spelled, type_args_tuple,
}
use pggen.Ch.Types.{elems_string, elem_name}
use pggen.Ch.Parse.Lexer.{parse_ident}
use pggen.Ch.Parse.LeafTrips.{expect_at_once}

-- A comma or a closing parenthesis ends a name, and an opening one does.
ends_type_args :
    {u : Text} (sp : Spelled u) (rest : Text)
    → stops rest ≡ true
    → rest ≢ []
    → (stops_at is_ident_byte (sp.args ++ rest) ≡ true)
      × (skip_space (sp.args ++ rest) ≡ sp.args ++ rest)
      × (ends_type (sp.args ++ rest) ≡ true)
ends_type_args sp rest stop ne = elim sp.opens_args [
  | inl none_there ↦ rw none_there (let (a, b) = stops_ident rest stop in (a, b, ends rest stop ne))
  | inr (inner, e) ↦ rw e (unfold is_ident_byte in refl, unfold skip_space in refl, refl)
]
  where
    ends : (t : Text) → stops t ≡ true → t ≢ [] → ends_type t ≡ true
    ends [] h ne = absurd (ne refl)
    ends (c ∷ t) h ne = ground arith

ident_not_end : (c : ℕ) → is_ident_byte c ≡ true → (c == b'(' || c == b',' || c == b')') ≡ false
unfolding is_ident_byte
ident_not_end c h = ground arith

ident_goes_on : {u : Text} (rest : Text) → Spelled u → ends_type (u ++ rest) ≡ false
ident_goes_on {u} rest sp = rw sp.splits (go sp.name sp.is_name.nonempty sp.is_name.ident_bytes)
  where
    go :
        (n : Text)
        → n ≢ []
        → All (λ c. is_ident_byte c ≡ true) n
        → ends_type ((n ++ sp.args) ++ rest) ≡ false
    go [] ne h = absurd (ne refl)
    go (c ∷ n) ne h = ident_not_end c h.0

-- One round of the loop up to its comma: the element, and what follows it.
abbrev ItemRead : ℕ → Text → Text → ChType → Text → Type 0
ItemRead f s name t rest =
    (ident : Text) × (behind : Text) × (parse_ident s ≡ ok (ident, behind))
    × (tuple_item (parse_type f) s ident (skip_space behind) ≡ ok ((name, t), rest))

module _ {t : ChType} (sp : Spelled (to_string t)) (trip : Trip t) (f : ℕ) (s rest : Text)
    (lt : length (to_string t) < f) (stop : stops rest ≡ true) (ne : rest ≢ []) where
  unnamed_trip : skip_space s ≡ to_string t ++ rest → ItemRead f s [] t rest
  unfolding tuple_item
  unnamed_trip e =
      let (not_ident, same, ends) = ends_type_args sp rest stop ne in
      (
        sp.name,
        sp.args ++ rest,
        parse_ident-IsName s (sp.args ++ rest) sp.is_name (e ∙ rw (sp.splits, append_assoc))
            not_ident,
        rw (same, ends, trip f s rest lt stop e),
      )

  named_trip :
      {name : Text}
      → IsName name
      → skip_space s ≡ name ++ b' ' ∷ (to_string t ++ rest)
      → ItemRead f s name t rest
  unfolding tuple_item
  named_trip {name} named e =
      let next = to_string t ++ rest in
      let same = skip_space-Spelled rest sp in
      (
        name,
        b' ' ∷ next,
        parse_ident-IsName s (b' ' ∷ next) named e (unfold is_ident_byte in refl),
        rw (space next, same, ident_goes_on rest sp, trip f next rest lt stop same),
      )
    where
      space : (u : Text) → skip_space (b' ' ∷ u) ≡ skip_space u
      space u = unfold skip_space in refl

  item_trip :
      (name : Text)
      → (name ≡ []) ⊎ IsName name
      → skip_space s ≡ elem_name name ++ (to_string t ++ rest)
      → ItemRead f s name t rest
  unfolding elem_name
  item_trip [] named e = unnamed_trip e
  item_trip (c ∷ name) (inl h) e = cc
  item_trip (c ∷ name) (inr named) e = named_trip named (e ∙ rw append_assoc)

-- The elements of a tuple, read off their spelling in front of the closing parenthesis.
abbrev pub ElemsTrip : Elems → Type 0
ElemsTrip es =
    (f g : ℕ) (s rest : Text)
    → length (elems_string true es) < f
    → length (elems_string true es) < g
    → es ≢ no_elems
    → skip_space s ≡ elems_string true es ++ b')' ∷ rest
    → tuple_loop (parse_type f) g s ≡ ok (es, b')' ∷ rest)

-- The print of an element, in front of what follows it.
elems_string_elem :
    (name : Text) (t : ChType) (es : Elems) (rest : Text)
    → elems_string true (elem name t es) ++ rest
      ≡ elem_name name ++ (to_string t ++ (elems_string false es ++ rest))
unfolding elems_string
elems_string_elem name t es rest = simp append_assoc

length-elems_string :
    (name : Text) (t : ChType) (es : Elems)
    → (length (to_string t) ≤ length (elems_string true (elem name t es)))
      × (length (elems_string false es) ≤ length (elems_string true (elem name t es)))
unfolding elems_string
length-elems_string name t es =
    let outer = length-append (elem_name name) (to_string t ++ elems_string false es) in
    let inner = length-append (to_string t) (elems_string false es) in
    (omega (arith, outer, inner), omega (arith, outer, inner))

-- The elements behind the first, as the first ones of a shorter tuple.
elems_string_next :
    (name : Text) (t : ChType) (es : Elems) (rest : Text)
    → elems_string false (elem name t es) ++ rest
      ≡ b',' ∷ b' ' ∷ (elems_string true (elem name t es) ++ rest)
unfolding elems_string
elems_string_next name t es rest = refl

pub skip_space-elems_string :
    (name : Text) (t : ChType) (es : Elems) (rest : Text)
    → (name ≡ []) ⊎ IsName name
    → Spelled (to_string t)
    → skip_space (elems_string true (elem name t es) ++ rest)
      ≡ elems_string true (elem name t es) ++ rest
unfolding elem_name
skip_space-elems_string [] t es rest named sp =
    rw (elems_string_elem [] t es rest) (skip_space-Spelled _ sp)
skip_space-elems_string (c ∷ name) t es rest (inl e) sp = cc
skip_space-elems_string (c ∷ name) t es rest (inr named) sp =
    let others = to_string t ++ (elems_string false es ++ rest) in
    rw (elems_string_elem (c ∷ name) t es rest, append_assoc)
      (skip_space-IsName (b' ' ∷ others) named)

skip_blank : (u : Text) → skip_space (b' ' ∷ u) ≡ skip_space u
unfolding skip_space
skip_blank u = refl

pub last-ElemsTrip :
    (name : Text) (t : ChType)
    → (name ≡ []) ⊎ IsName name
    → Spelled (to_string t)
    → Trip t
    → ElemsTrip (elem name t no_elems)
unfolding tuple_loop
last-ElemsTrip name t named sp trip f zero s rest lf lg ne e = absurd (omega arith)
last-ElemsTrip name t named sp trip f (suc g) s rest lf lg ne e =
    let (ident, behind, p, q) =
      item_trip sp trip f s (b')' ∷ rest) (omega (arith, (length-elems_string name t no_elems).0))
        refl (cc) name named
        (e ∙ elems_string_elem name t no_elems _ ∙ unfold elems_string in refl) in
    rw (p, q) (unfold accept skip_space in refl)

pub more-ElemsTrip :
    (name : Text) (t : ChType) (name' : Text) (t' : ChType) (es : Elems)
    → (name ≡ []) ⊎ IsName name
    → (name' ≡ []) ⊎ IsName name'
    → Spelled (to_string t)
    → Spelled (to_string t')
    → Trip t
    → ElemsTrip (elem name' t' es)
    → ElemsTrip (elem name t (elem name' t' es))
unfolding tuple_loop
more-ElemsTrip name t name' t' es named named' sp sp' trip others f zero s rest lf lg ne e =
    absurd (omega arith)
more-ElemsTrip name t name' t' es named named' sp sp' trip others f (suc g) s rest lf lg ne e =
    let next = b' ' ∷ (elems_string true (elem name' t' es) ++ b')' ∷ rest) in
    let (le, le') = length-elems_string name t (elem name' t' es) in
    let shorter = length_next in
    let (ident, behind, p, q) =
      item_trip sp trip f s (b',' ∷ next) (omega arith) refl (cc) name named
        (e ∙ elems_string_elem name t (elem name' t' es) _ ∙ rw elems_string_next) in
    rw (
      p,
      q,
      comma next,
      others f g next rest (omega arith) (omega arith) (cc)
          (skip_blank _ ∙ skip_space-elems_string name' t' es (b')' ∷ rest) named' sp'),
    )
  where
    comma : (u : Text) → accept b',' (b',' ∷ u) ≡ (true, u)
    comma u = unfold accept skip_space in refl

    length_next :
        length (elems_string false (elem name' t' es))
        ≡ length (elems_string true (elem name' t' es)) + 2
    length_next = unfold elems_string in omega arith

pub tuple-Trip :
    (es : Elems)
    → es ≢ no_elems
    → ((rest : Text) → skip_space (elems_string true es ++ rest) ≡ elems_string true es ++ rest)
    → ElemsTrip es
    → Trip (tuple es)
unfolding to_string is_ident_byte
tuple-Trip es ne start trip zero s rest lt stop e = absurd (omega arith)
tuple-Trip es ne start trip (suc f) s rest lt stop e =
    let size = length-append (elems_string true es) (codes ")") in
    parse_type_args f s _ (codes "uple") (elems_string true es ++ b')' ∷ rest) refl
      (e ∙ ap (λ x. codes "Tuple(" ++ x) (append_assoc (elems_string true es) (codes ")") rest))
    ∙ type_args_tuple (parse_type f) f s _
    ∙ args (omega arith)
  where
    args :
        length (elems_string true es) < f
        → tuple_args (parse_type f) f (b'(' ∷ (elems_string true es ++ b')' ∷ rest))
          ≡ ok (tuple es, rest)
    args le =
        unfold tuple_args in
        rw (
          expect_at_once b'(' _ refl,
          trip f f _ rest le le ne (start (b')' ∷ rest)),
          expect_at_once b')' rest refl,
        )
