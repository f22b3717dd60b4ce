-- ===== src/Ch/Parse/CompositeTrips.antt =====
-- Maps, enums and tuples are read back from their spellings, if their parts are.
use pggen.Prelude.{
  ℕ, zero, suc, ◌+◌, ◌<◌, ◌≡◌, refl, ap, sym, ◌∙◌, ◌≢◌, inl, inr, true, List, [], ◌∷◌, ◌++◌,
  append_assoc, arith, length, length-append, All,
}
use mathlib.Core.Path.{subst}
use pggen.Prelude.Int.{ℤ}
use pggen.Prelude.Decimal.{itoa_ℕ}
use pggen.Prelude.Result.{ok}
use pggen.Prelude.Text.{Text, codes}
use pggen.Ch.Types.{ChType, map, enum, to_string, quote, enum_items}
use pggen.Ch.Parse.Lexer.{skip_space, is_ident_byte}
use pggen.Ch.Parse.Canonical.{IsItem}
use pggen.Ch.Parse.Supported.{Spelled, all_ident}
use pggen.Ch.Parse.EnumTrip.{enum_loop-enum_items}
use pggen.Ch.Parse.{enum_args, map_args, type_args, parse_type}
use pggen.Ch.Parse.Trips.{
  Trip, parse_type_args, skip_space-Spelled, type_args_map, type_args_enum8, type_args_enum16,
}
use pggen.Ch.Parse.LeafTrips.{expect_at_once}

pub map-Trip :
    (k v : ChType)
    → Spelled (to_string k)
    → Spelled (to_string v)
    → Trip k
    → Trip v
    → Trip (map k v)
unfolding to_string is_ident_byte
map-Trip k v sk sv tk tv zero s rest lt stop e = absurd (omega arith)
map-Trip k v sk sv tk tv (suc f) s rest lt stop e =
    parse_type_args f s _ (codes "ap") (to_string k ++ b',' ∷ b' ' ∷ (to_string v ++ b')' ∷ rest))
      refl (e ∙ spell)
    ∙ type_args_map (parse_type f) f s _
    ∙ args (omega (arith, sizes)) (omega (arith, sizes))
  where
    spell :
        (codes "Map(" ++ (to_string k ++ (codes ", " ++ (to_string v ++ codes ")")))) ++ rest
        ≡ codes "Map(" ++ (to_string k ++ b',' ∷ b' ' ∷ (to_string v ++ b')' ∷ rest))
    spell = simp append_assoc

    sizes :
        length (to_string k ++ (codes ", " ++ (to_string v ++ codes ")")))
        ≡ length (to_string k) + length (to_string v) + 3
    sizes = omega (
      arith,
      length-append (to_string k) (codes ", " ++ (to_string v ++ codes ")")),
      length-append (to_string v) (codes ")"),
    )

    args :
        length (to_string k) < f
        → length (to_string v) < f
        → map_args
            (parse_type f)
            (b'(' ∷ (to_string k ++ b',' ∷ b' ' ∷ (to_string v ++ b')' ∷ rest)))
          ≡ ok (map k v, rest)
    args lk lv =
        let value = to_string v ++ b')' ∷ rest in
        let next = b' ' ∷ value in
        unfold map_args in
        rw (
          expect_at_once b'(' _ refl,
          tk f _ (b',' ∷ next) lk refl (skip_space-Spelled (b',' ∷ next) sk),
          expect_at_once b',' _ refl,
          tv f next (b')' ∷ rest) lv refl
              (unfold skip_space in skip_space-Spelled (b')' ∷ rest) sv),
          expect_at_once b')' rest refl,
        )

-- The items in parentheses.
enum_args_trip :
    (f bits : ℕ) (items : List (Text × ℤ)) (rest : Text)
    → items ≢ []
    → All (IsItem bits) items
    → length (enum_items true items) < f
    → enum_args f bits (b'(' ∷ (enum_items true items ++ b')' ∷ rest)) ≡ ok (enum bits items, rest)
unfolding enum_args
enum_args_trip f bits items rest ne h lt =
    let inner = enum_items true items ++ b')' ∷ rest in
    rw (
      expect_at_once b'(' _ refl,
      enum_loop-enum_items bits f items inner rest ne h lt (no_space items ne),
      expect_at_once b')' rest refl,
    )
  where
    no_space :
        (is : List (Text × ℤ))
        → is ≢ []
        → skip_space (enum_items true is ++ b')' ∷ rest) ≡ enum_items true is ++ b')' ∷ rest
    no_space [] ne = absurd (ne refl)
    no_space ((label, v) ∷ is) ne = unfold enum_items quote skip_space in refl

-- An enum whose name is spelled `E` and `name`.
enum_named-Trip :
    (bits : ℕ) (name : Text) (items : List (Text × ℤ))
    → to_string (enum bits items) ≡ b'E' ∷ (name ++ b'(' ∷ (enum_items true items ++ codes ")"))
    → all_ident (b'E' ∷ name) ≡ true
    → ((f : ℕ) (start t : Text)
        → type_args (parse_type f) f start (b'E' ∷ name) t ≡ enum_args f bits t)
    → items ≢ []
    → All (IsItem bits) items
    → Trip (enum bits items)
enum_named-Trip bits name items spelled ident goes ne h zero s rest lt stop e = absurd (omega arith)
enum_named-Trip bits name items spelled ident goes ne h (suc f) s rest lt stop e =
    parse_type_args f s b'E' name (enum_items true items ++ b')' ∷ rest) ident (e ∙ spell)
    ∙ goes f s _
    ∙ enum_args_trip f bits items rest ne h (
        omega (
          arith,
          lt,
          ap length spelled,
          length-append name (b'(' ∷ (enum_items true items ++ codes ")")),
          length-append (enum_items true items) (codes ")"),
        ))
  where
    spell :
        to_string (enum bits items) ++ rest
        ≡ b'E' ∷ (name ++ b'(' ∷ (enum_items true items ++ b')' ∷ rest))
    spell = rw spelled (simp append_assoc)

pub enum-Trip :
    (bits : ℕ) (items : List (Text × ℤ))
    → items ≢ []
    → All (IsItem bits) items
    → Trip (enum bits items)
enum-Trip bits [] ne h = absurd (ne refl)
enum-Trip bits (item ∷ items) ne h = elim h.0.1 [
  | inl fits ↦
      subst (λ b. All (IsItem b) (item ∷ items) → Trip (enum b (item ∷ items))) (sym fits.0) enum8 h
  | inr fits ↦
      subst (λ b. All (IsItem b) (item ∷ items) → Trip (enum b (item ∷ items))) (sym fits.0) enum16
        h
]
  where
    enum8 : All (IsItem 8) (item ∷ items) → Trip (enum 8 (item ∷ items))
    enum8 =
        enum_named-Trip 8 (codes "num8") (item ∷ items) (unfold to_string itoa_ℕ in refl)
          (unfold is_ident_byte in refl) (λ f start t. type_args_enum8 (parse_type f) f start t) ne

    enum16 : All (IsItem 16) (item ∷ items) → Trip (enum 16 (item ∷ items))
    enum16 =
        enum_named-Trip 16 (codes "num16") (item ∷ items) (unfold to_string itoa_ℕ in refl)
          (unfold is_ident_byte in refl) (λ f start t. type_args_enum16 (parse_type f) f start t) ne
