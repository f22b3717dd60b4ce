-- ===== src/Ch/Parse/EnumTrip.antt =====
-- The items of an enum are read back.
use pggen.Prelude.{
  ℕ, zero, suc, ◌<◌, ◌≡◌, refl, ◌∙◌, ◌≢◌, Bool, true, false, List, [], ◌∷◌, ◌++◌, append_assoc,
  arith, length, length-append, All,
}
use pggen.Prelude.Int.{ℤ}
use pggen.Prelude.Decimal.{itoa, is_digit}
use pggen.Prelude.Result.{ok}
use pggen.Prelude.Text.{Text, codes}
use pggen.Ch.Types.{enum_items, quote, separator}
use pggen.Ch.Parse.Lexer.{accept, expect, skip_space}
use pggen.Ch.Parse.Canonical.{FitsEnum, IsItem}
use pggen.Ch.Parse.Spelling.{stops_at, parse_string-quote, parse_int-itoa, skip_space-itoa}
use pggen.Ch.Parse.{enum_fits, enum_item, enum_loop}

FitsEnum-enum_fits : (bits : ℕ) (v : ℤ) → FitsEnum bits v → enum_fits bits v ≡ true
unfolding enum_fits
FitsEnum-enum_fits bits v h = ground arith

enum_item-quote :
    (bits : ℕ) (s label : Text) (v : ℤ) (rest : Text)
    → IsItem bits (label, v)
    → skip_space s ≡ quote label ++ (codes " = " ++ (itoa v ++ rest))
    → stops_at is_digit rest ≡ true
    → enum_item bits s ≡ ok ((label, v), rest)
unfolding enum_item
enum_item-quote bits s label v rest (i, fits) e stop = rw (
  parse_string-quote s label _ e,
  equals,
  parse_int-itoa (b' ' ∷ (itoa v ++ rest)) v rest i space stop,
  FitsEnum-enum_fits bits v fits,
)
  where
    equals : expect b'=' (codes " = " ++ (itoa v ++ rest)) ≡ ok (b' ' ∷ (itoa v ++ rest))
    equals = unfold expect skip_space in refl

    space : skip_space (b' ' ∷ (itoa v ++ rest)) ≡ itoa v ++ rest
    space = unfold skip_space in skip_space-itoa v rest

-- The print of an item, in front of what follows it.
enum_items_cons :
    (first : Bool) (label : Text) (v : ℤ) (items : List (Text × ℤ)) (rest : Text)
    → enum_items first ((label, v) ∷ items) ++ rest
      ≡ separator first
        ++ (quote label ++ (codes " = " ++ (itoa v ++ (enum_items false items ++ rest))))
unfolding enum_items
enum_items_cons true label v items rest = simp append_assoc
enum_items_cons false label v items rest = simp append_assoc

-- The items behind the first, as the first ones of a shorter list.
enum_items_next :
    (y : Text × ℤ) (ys : List (Text × ℤ)) (rest : Text)
    → enum_items false (y ∷ ys) ++ rest ≡ b',' ∷ b' ' ∷ (enum_items true (y ∷ ys) ++ rest)
unfolding enum_items
enum_items_next (label, v) ys rest = refl

skip_space-enum_items :
    (y : Text × ℤ) (ys : List (Text × ℤ)) (rest : Text)
    → skip_space (b' ' ∷ (enum_items true (y ∷ ys) ++ rest)) ≡ enum_items true (y ∷ ys) ++ rest
unfolding enum_items skip_space quote
skip_space-enum_items (label, v) ys rest = refl

length-enum_items :
    (label : Text) (v : ℤ) (y : Text × ℤ) (ys : List (Text × ℤ))
    → length (enum_items true (y ∷ ys)) < length (enum_items true ((label, v) ∷ y ∷ ys))
unfolding enum_items
length-enum_items label v (label', v') ys =
    let others = enum_items false ((label', v') ∷ ys) in
    omega (
      arith,
      length-append (quote label) (codes " = " ++ (itoa v ++ others)),
      length-append (itoa v) others,
    )

pub enum_loop-enum_items :
    (bits f : ℕ) (items : List (Text × ℤ)) (s rest : Text)
    → items ≢ []
    → All (IsItem bits) items
    → length (enum_items true items) < f
    → skip_space s ≡ enum_items true items ++ b')' ∷ rest
    → enum_loop f bits s ≡ ok (items, b')' ∷ rest)
unfolding enum_loop
enum_loop-enum_items bits zero items s rest ne h lt e = absurd (omega arith)
enum_loop-enum_items bits (suc f) [] s rest ne h lt e = absurd (ne refl)
enum_loop-enum_items bits (suc f) ((label, v) ∷ []) s rest ne h lt e =
    rw
      (enum_item-quote bits s label v (b')' ∷ rest) h.0
        (e ∙ enum_items_cons true label v [] (b')' ∷ rest) ∙ unfold enum_items in refl) refl)
      (unfold accept in refl)
enum_loop-enum_items bits (suc f) ((label, v) ∷ y ∷ ys) s rest ne h lt e =
    let more = b' ' ∷ (enum_items true (y ∷ ys) ++ b')' ∷ rest) in
    rw (
      enum_item-quote bits s label v (b',' ∷ more) h.0
          (e ∙ enum_items_cons true label v (y ∷ ys) (b')' ∷ rest) ∙ rw enum_items_next) refl,
      accept_comma more,
      enum_loop-enum_items bits f (y ∷ ys) more rest (cc) h.1
          (omega (arith, length-enum_items label v y ys))
          (skip_space-enum_items y ys (b')' ∷ rest)),
    )
  where
    accept_comma : (t : Text) → accept b',' (b',' ∷ t) ≡ (true, t)
    accept_comma t = unfold accept skip_space in refl
