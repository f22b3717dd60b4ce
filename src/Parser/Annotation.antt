-- ===== src/Parser/Annotation.antt =====
-- The annotation of a query, `annotationRegexp` of internal/parser/parser.go: the pattern
-- `name: ([a-zA-Z0-9_$]+)[ \t]+(:many|:one|:exec)[ \t]*(.*)` on a line.
use pggen.Prelude.{ℕ, Bool, ◌||◌, [], ◌∷◌, Option, none, some, ◌==◌, if◌then◌else◌}
use pggen.Prelude.Text.{Text, codes, cut_prefix, is_empty}
use pggen.Parser.Pragmas.{is_ascii_letter, is_ascii_digit}

-- The constants of the type `ResultKind`.
pub data ResultKind : Type 0 where
  many one exec : ResultKind

abbrev pub is_name_char : ℕ → Bool
is_name_char c = is_ascii_letter c || is_ascii_digit c || c == b'_' || c == b'$'

abbrev pub is_tab_or_space : ℕ → Bool
is_tab_or_space c = c == b' ' || c == b'\t'

-- The longest front of characters that pass a test, and the text behind it. Each class of the pattern
-- is followed by one that shares no character with it, so no shorter front gives another match.
unfoldable pub front_of : (ℕ → Bool) → Text → Text × Text
front_of p [] = ([], [])
front_of p (c ∷ s) =
    let (front, rest) = front_of p s in if p c then (c ∷ front, rest) else ([], c ∷ s)

-- The alternatives of the result's kind, in their order.
unfoldable pub read_kind : Text → Option (ResultKind × Text)
unfolding cut_prefix
read_kind s = elim (cut_prefix s (codes ":many")) [
  | some rest ↦ some (many, rest)
  | none ↦ elim (cut_prefix s (codes ":one")) [
    | some rest ↦ some (one, rest)
    | none ↦ elim (cut_prefix s (codes ":exec")) [ some rest ↦ some (exec, rest) | none ↦ none ]
  ]
]

-- `annotations`: the name, the kind and the pragmas.
pub record Annotation : Type 0 where
  pub name : Text
  pub kind : ResultKind
  pub args : Text

-- A match behind the literal `name: `.
unfoldable pub read_annotation : Text → Option Annotation
unfolding front_of read_kind
read_annotation s =
    let (name, s1) = front_of is_name_char s in
    let (blank, s2) = front_of is_tab_or_space s1 in
    if is_empty name || is_empty blank then none else elim (read_kind s2) [
      | none ↦ none
      | some (kind, s3) ↦
          let (_, args) = front_of is_tab_or_space s3 in
          some (record { name = name; kind = kind; args = args })
    ]

-- `annotationRegexp.FindStringSubmatch(text)`: the leftmost match; `none` for nil.
unfoldable pub find_annotation : Text → Option Annotation
unfolding read_annotation cut_prefix
find_annotation [] = none
find_annotation (c ∷ s) =
    let later = find_annotation s in
    elim (cut_prefix (c ∷ s) (codes "name: ")) [
      | none ↦ later
      | some rest ↦ elim (read_annotation rest) [ none ↦ later | some a ↦ some a ]
    ]
