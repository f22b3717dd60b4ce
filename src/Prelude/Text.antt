-- ===== src/Prelude/Text.antt =====
-- Go strings as lists of code points. Every byte that the code looks for is ASCII, so that on UTF-8
-- a walk over bytes and a walk over code points stop at the same places. Of package strings this
-- has what the code calls: TrimSpace, TrimLeft, TrimRight, HasPrefix, CutPrefix, Cut, Join, ==.
use Prim.Native.Nat.{ℕ, ◌+◌}
use Prim.Native.Char.{code}
use Prim.Native.String.{String}
use mathlib.Core.Path.{◌≡◌, refl, ap}
use mathlib.Core.Logic.{◌↔◌, ◌≢◌, inl, inr}
use mathlib.Core.Bool.{Bool, true, false, ◌&&◌, ◌||◌}
use mathlib.Core.Option.{Option, none, some}
use mathlib.Core.List.{List, [], ◌∷◌, ◌++◌}
use native.Mathlib.Omega.{arith}
use pggen.Prelude.Tests.{leb, ltb, ◌==◌, if◌then◌else◌, Option-cases}
use pggen.Prelude.Lists.{All}

abbrev pub Text : Type 0
Text = List ℕ

-- The code points of a literal.
abbrev pub codes : String → Text
codes String.[] = []
codes (String.◌∷◌ c s) = code c ∷ codes s

-- `a == b`.
unfoldable pub eq : Text → Text → Bool
eq [] [] = true
eq (x ∷ xs) (y ∷ ys) = x == y && eq xs ys
eq _ _ = false

pub eq_iff : (a b : Text) → (eq a b ≡ true) ↔ (a ≡ b)
unfolding eq
eq_iff (x ∷ a) (y ∷ b) = ground (arith, eq_iff a b)
eq_iff _ _ = ground arith

pub eq_refl : (a : Text) → eq a a ≡ true
eq_refl a = (eq_iff a a).1 refl

pub eq-false : (a b : Text) → eq a b ≡ false → a ≢ b
eq-false a b h e = cc ((eq_iff a b).1 e)

abbrev pub is_empty : Text → Bool
is_empty [] = true
is_empty (c ∷ s) = false

-- `len` of a text in UTF-8.
abbrev pub rune_len : ℕ → ℕ
rune_len c = if ltb c 0x80 then 1 else if ltb c 0x800 then 2 else if ltb c 0x10000 then 3 else 4

abbrev pub byte_length : Text → ℕ
byte_length [] = 0
byte_length (c ∷ s) = rune_len c + byte_length s

-- `unicode.IsSpace`.
unfoldable pub is_space : ℕ → Bool
is_space c =
    (leb 9 c && leb c 13)
    || c == 32
    || c == 0x85
    || c == 0xa0
    || c == 0x1680
    || (leb 0x2000 c && leb c 0x200a)
    || c == 0x2028
    || c == 0x2029
    || c == 0x202f
    || c == 0x205f
    || c == 0x3000

-- `strings.TrimLeftFunc`, `TrimRightFunc`.
unfoldable pub trim_left : (ℕ → Bool) → Text → Text
trim_left p [] = []
trim_left p (c ∷ s) = let rest = trim_left p s in if p c then rest else c ∷ s

unfoldable pub trim_right : (ℕ → Bool) → Text → Text
trim_right p [] = []
trim_right p (c ∷ s) = elim (trim_right p s) [
  | [] ↦ (if p c then [] else c ∷ [])
  | d ∷ r ↦ c ∷ d ∷ r
]

unfoldable pub trim_space : Text → Text
unfolding trim_left trim_right is_space
trim_space s = trim_left is_space (trim_right is_space s)

-- `strings.CutPrefix(s, prefix)`.
unfoldable pub cut_prefix : Text → Text → Option Text
cut_prefix s [] = some s
cut_prefix [] (p ∷ ps) = none
cut_prefix (c ∷ s) (p ∷ ps) = if c == p then cut_prefix s ps else none

-- `strings.HasPrefix(s, prefix)`.
unfoldable pub has_prefix : Text → Text → Bool
unfolding cut_prefix
has_prefix s p = elim (cut_prefix s p) [ none ↦ false | some _ ↦ true ]

-- `strings.Cut(s, sep)` at a separator of one byte.
unfoldable pub cut : Text → ℕ → Option (Text × Text)
cut [] sep = none
cut (c ∷ s) sep =
    if c == sep
    then some ([], s)
    else elim (cut s sep) [ none ↦ none | some (before, after) ↦ some (c ∷ before, after) ]

-- `strings.Join(parts, sep)`.
unfoldable pub join : List Text → Text → Text
join [] sep = []
join (p ∷ []) sep = p
join (p ∷ q ∷ ps) sep = p ++ (sep ++ join (q ∷ ps) sep)

-- `contains(ss, s)`.
unfoldable pub contains : List Text → Text → Bool
unfolding eq
contains [] s = false
contains (x ∷ xs) s = eq x s || contains xs s

pub eq_sym : (a b : Text) → eq a b ≡ eq b a
unfolding eq
eq_sym [] [] = refl
eq_sym [] (y ∷ b) = refl
eq_sym (x ∷ a) [] = refl
eq_sym (x ∷ a) (y ∷ b) = ground (arith, eq_sym a b)

pub contains-eq : (xs : List Text) (n x : Text) → eq n x ≡ true → contains xs n ≡ contains xs x
contains-eq xs n x e = ap (contains xs) ((eq_iff n x).0 e)

-- Texts of which no two are the same.
abbrev pub IsDistinct : List Text → Type 0
IsDistinct [] = Unit
IsDistinct (c ∷ cs) = All (λ x. c ≢ x) cs × IsDistinct cs

pub contains-misses : (xs : List Text) (c : Text) → contains xs c ≡ false → All (λ x. c ≢ x) xs
unfolding contains
contains-misses [] c h = tt
contains-misses (x ∷ xs) c h =
    let rest = contains-misses xs c in let e = eq_iff x c in ground (arith, rest, e, h)

-- What is trimmed stays as it is.
trim_left_idem : (p : ℕ → Bool) (s : Text) → trim_left p (trim_left p s) ≡ trim_left p s
unfolding trim_left
trim_left_idem p [] = refl
trim_left_idem p (c ∷ s) = ground (arith, trim_left_idem p s)

trim_right_idem : (p : ℕ → Bool) (s : Text) → trim_right p (trim_right p s) ≡ trim_right p s
trim_right_idem p [] = unfold trim_right in refl
trim_right_idem p (c ∷ s) = step c (trim_right_idem p s)
  where
    step :
        (c : ℕ)
        → trim_right p (trim_right p s) ≡ trim_right p s
        → trim_right p (trim_right p (c ∷ s)) ≡ trim_right p (c ∷ s)
    step c ih = unfold trim_right in ground arith

trim_right_tail :
    (p : ℕ → Bool) (c : ℕ) (s : Text) → trim_right p (c ∷ s) ≡ c ∷ s → trim_right p s ≡ s
unfolding trim_right
trim_right_tail p c s e = ground arith

trim_right-trim_left :
    (p : ℕ → Bool) (s : Text) → trim_right p s ≡ s → trim_right p (trim_left p s) ≡ trim_left p s
unfolding trim_left
trim_right-trim_left p [] e = e
trim_right-trim_left p (c ∷ s) e =
    ground (arith, trim_right-trim_left p s (trim_right_tail p c s e))

pub trim_space_idem : (s : Text) → trim_space (trim_space s) ≡ trim_space s
unfolding trim_space
trim_space_idem s =
    rw (trim_right-trim_left is_space (trim_right is_space s) (trim_right_idem is_space s))
      (trim_left_idem is_space (trim_right is_space s))

-- The two sides of a cut, and the first separator between them.
pub cut-some :
    (s : Text) (sep : ℕ) (before after : Text)
    → cut s sep ≡ some (before, after)
    → (s ≡ before ++ sep ∷ after) × All (λ c. c ≢ sep) before
unfolding cut
cut-some [] sep before after e = cc
cut-some (c ∷ s) sep before after e = elim (Option-cases (cut s sep)) [
  | inl n ↦ (ground arith, ground arith)
  | inr ((b, a), p) ↦ let (split, lacks) = cut-some s sep b a p in (ground arith, ground arith)
]

-- A cut at the first separator.
pub cut-append :
    (before : Text) (sep : ℕ) (after : Text)
    → All (λ c. c ≢ sep) before
    → cut (before ++ sep ∷ after) sep ≡ some (before, after)
unfolding cut
cut-append [] sep after h = ground arith
cut-append (c ∷ before) sep after h = let rest = cut-append before sep after h.1 in ground arith
