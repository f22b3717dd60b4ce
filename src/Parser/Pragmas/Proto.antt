-- ===== src/Parser/Pragmas/Proto.antt =====
-- `validateProtoMsgType` against the grammar of message names.
use pggen.Prelude.{
  ℕ, ◌≡◌, refl, ap, sym, ◌∙◌, ◌≢◌, ◌↔◌, ◌⊎◌, inl, inr, Bool, true, false, ◌||◌, [], ◌∷◌, ◌++◌,
  arith, ◌==◌, if◌then◌else◌, Bool-cases, ==_iff, All, append-nil,
}
use pggen.Prelude.Result.{ok, err}
use pggen.Prelude.Text.{Text, is_empty}
use pggen.Parser.Pragmas.{
  proto_bad_start, proto_bad_dot, proto_bad_char, is_ascii_letter, is_ascii_digit, proto_loop,
  validate_proto_msg_type,
}
use pggen.Parser.Pragmas.Valid.{IsWordByte}

-- Segments with a dot between them: each a letter and then letters, digits and underscores.
pub data IsSegments : Text → Type 0 where
  last : {c : ℕ} {s : Text} → is_ascii_letter c ≡ true → All IsWordByte s → IsSegments (c ∷ s)
  more :
      {c : ℕ} {s : Text} (word rest : Text)
      → is_ascii_letter c ≡ true
      → All IsWordByte word
      → IsSegments rest
      → s ≡ word ++ b'.' ∷ rest
      → IsSegments (c ∷ s)

-- What may follow the first letter of a segment.
data IsTail (s : Text) : Type 0 where
  ends : All IsWordByte s → IsTail s
  goes_on :
      (word rest : Text)
      → All IsWordByte word
      → IsSegments rest
      → s ≡ word ++ b'.' ∷ rest
      → IsTail s

IsTail-byte : {c : ℕ} {s : Text} → IsWordByte c → IsTail s → IsTail (c ∷ s)
IsTail-byte w (ends h) = ends (w, h)
IsTail-byte {c} w (goes_on word rest h hs e) = goes_on (c ∷ word) rest (w, h) hs (ap (◌∷◌ c) e)

IsTail-letter : {c : ℕ} {s : Text} → is_ascii_letter c ≡ true → IsTail s → IsSegments (c ∷ s)
IsTail-letter l (ends h) = last l h
IsTail-letter l (goes_on word rest h hs e) = more word rest l h hs e

-- The rounds of the loop, by the character that is read.
module _ (val : Text) (start : Bool) (c : ℕ) (s : Text) where
  proto_letter : is_ascii_letter c ≡ true → proto_loop val start (c ∷ s) ≡ proto_loop val false s
  unfolding proto_loop
  proto_letter e = rw e

  proto_other :
      is_ascii_letter c ≡ false
      → (is_ascii_digit c || c == b'_') ≡ true
      → proto_loop val start (c ∷ s)
        ≡ (if start then err (proto_bad_start val) else proto_loop val start s)
  unfolding proto_loop
  proto_other e e' = rw (e, e')

  proto_dot :
      is_ascii_letter c ≡ false
      → (is_ascii_digit c || c == b'_') ≡ false
      → (c == b'.') ≡ true
      → proto_loop val start (c ∷ s)
        ≡ (if start || is_empty s then err (proto_bad_dot val) else proto_loop val true s)
  unfolding proto_loop
  proto_dot e e' e'' = rw (e, e', e'')

  proto_bad :
      is_ascii_letter c ≡ false
      → (is_ascii_digit c || c == b'_') ≡ false
      → (c == b'.') ≡ false
      → proto_loop val start (c ∷ s) ≡ err (proto_bad_char val)
  unfolding proto_loop
  proto_bad e e' e'' = rw (e, e', e'')

abbrev Accepts : Text → Bool → Text → Type 0
Accepts val start s = proto_loop val start s ≡ ok val

IsWordByte-letter : (c : ℕ) → is_ascii_letter c ≡ true → IsWordByte c
IsWordByte-letter c e = ground arith

IsWordByte-other :
    (c : ℕ) → is_ascii_letter c ≡ false → (is_ascii_digit c || c == b'_') ≡ true → IsWordByte c
IsWordByte-other c e e' = rw e e'

dot_IsTail :
    (val : Text) (c : ℕ) (s : Text)
    → (c == b'.') ≡ true
    → (if is_empty s then err (proto_bad_dot val) else proto_loop val true s) ≡ ok val
    → (Accepts val true s → (s ≡ []) ⊎ IsSegments s)
    → IsTail (c ∷ s)
dot_IsTail val c [] p h segments = cc
dot_IsTail val c (d ∷ s) p h segments = elim (segments h) [
  | inl e ↦ absurd (not_empty e)
  | inr hs ↦ goes_on [] (d ∷ s) tt hs (ap (λ x. x ∷ d ∷ s) ((==_iff c b'.').0 p))
]
  where
    not_empty : d ∷ s ≢ []
    not_empty e = cc

mutual
  start_IsSegments : (val s : Text) → Accepts val true s → (s ≡ []) ⊎ IsSegments s
  start_IsSegments val [] h = inl refl
  start_IsSegments val (c ∷ s) h = elim (Bool-cases (is_ascii_letter c)) [
    | inl l ↦ inr (IsTail-letter l (inside_IsTail val s (sym (proto_letter val true c s l) ∙ h)))
    | inr l ↦ elim (Bool-cases (is_ascii_digit c || c == b'_')) [
      | inl d ↦ cc (proto_other val true c s l d)
      | inr d ↦ elim (Bool-cases (c == b'.')) [
        | inl p ↦ cc (proto_dot val true c s l d p)
        | inr p ↦ cc (proto_bad val true c s l d p)
      ]
    ]
  ]

  inside_IsTail : (val s : Text) → Accepts val false s → IsTail s
  inside_IsTail val [] h = ends tt
  inside_IsTail val (c ∷ s) h = elim (Bool-cases (is_ascii_letter c)) [
    | inl l ↦
        IsTail-byte (IsWordByte-letter c l)
          (inside_IsTail val s (sym (proto_letter val false c s l) ∙ h))
    | inr l ↦ elim (Bool-cases (is_ascii_digit c || c == b'_')) [
      | inl d ↦
          IsTail-byte (IsWordByte-other c l d)
            (inside_IsTail val s (sym (proto_other val false c s l d) ∙ h))
      | inr d ↦ elim (Bool-cases (c == b'.')) [
        | inl p ↦
            dot_IsTail val c s p (sym (proto_dot val false c s l d p) ∙ h) (start_IsSegments val s)
        | inr p ↦ cc (proto_bad val false c s l d p)
      ]
    ]
  ]

accepts_word :
    (val word rest : Text)
    → All IsWordByte word
    → proto_loop val false (word ++ rest) ≡ proto_loop val false rest
accepts_word val [] rest h = refl
accepts_word val (c ∷ word) rest h = elim (Bool-cases (is_ascii_letter c)) [
  | inl l ↦ proto_letter val false c (word ++ rest) l ∙ accepts_word val word rest h.1
  | inr l ↦
      proto_other val false c (word ++ rest) l (rw l at (h.0)) ∙ accepts_word val word rest h.1
]

accepts_dot :
    (val rest : Text) → rest ≢ [] → proto_loop val false (b'.' ∷ rest) ≡ proto_loop val true rest
accepts_dot val [] ne = absurd (ne refl)
accepts_dot val (c ∷ rest) ne = proto_dot val false b'.' (c ∷ rest) refl refl refl

IsSegments-ne : {s : Text} → IsSegments s → s ≢ []
IsSegments-ne (last l h) = cc
IsSegments-ne (more word rest l h hs e) = cc

IsSegments-Accepts : (val : Text) {s : Text} → IsSegments s → Accepts val true s
IsSegments-Accepts val (last {c} {s} l h) =
    proto_letter val true c s l
    ∙ ap (proto_loop val false) (sym (append-nil s))
    ∙ accepts_word val s [] h
    ∙ (unfold proto_loop in refl)
IsSegments-Accepts val (more {c} {s} word rest l h hs e) =
    proto_letter val true c s l
    ∙ ap (proto_loop val false) e
    ∙ accepts_word val word (b'.' ∷ rest) h
    ∙ accepts_dot val rest (IsSegments-ne hs)
    ∙ IsSegments-Accepts val hs

-- The text that is let through is returned.
proto_loop_ok : (val : Text) (start : Bool) (s p : Text) → proto_loop val start s ≡ ok p → val ≡ p
unfolding proto_loop
proto_loop_ok val start [] p h = ground arith
proto_loop_ok val start (c ∷ s) p h =
    ground
      (arith, proto_loop_ok val false s p, proto_loop_ok val start s p, proto_loop_ok val true s p)

pub validate_proto_msg_type-ok :
    (val : Text) {p : Text} → validate_proto_msg_type val ≡ ok p → val ≡ p
unfolding validate_proto_msg_type
validate_proto_msg_type-ok val {p} h = proto_loop_ok val true val p h

-- `validateProtoMsgType` lets through the empty text and the texts of segments with a dot
-- between them, each a letter and then letters, digits and underscores, and nothing else.
pub validate_proto_msg_type_iff :
    (val : Text) → (validate_proto_msg_type val ≡ ok val) ↔ ((val ≡ []) ⊎ IsSegments val)
unfolding validate_proto_msg_type
validate_proto_msg_type_iff val = (start_IsSegments val val, back)
  where
    back : (val ≡ []) ⊎ IsSegments val → proto_loop val true val ≡ ok val
    back (inl e) = ap (proto_loop val true) e
    back (inr hs) = IsSegments-Accepts val hs
