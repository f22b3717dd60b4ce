-- ===== src/Casing.antt =====
-- internal/casing/casing.go and internal/casing/sanitize.go: names turned into Go identifiers. The
-- tables of the package unicode are parameters, and the acronyms of a Caser are a function.
pub mod Legal
mod Tests
use pggen.Prelude.{
  ℕ, ◌+◌, Bool, true, false, ◌||◌, List, [], ◌∷◌, ◌++◌, map, Option, none, some, ◌==◌, ltb,
  if◌then◌else◌,
}
use pggen.Prelude.Text.{Text, codes, eq, is_empty, trim_space, contains, byte_length}

-- `AddAcronym(str, acronym)`, and `AddAcronyms(acros)` of a map's entries.
unfoldable pub add_acronym : Text → Text → (Text → Option Text) → Text → Option Text
unfolding eq
add_acronym str acronym acronyms w = if eq str w then some acronym else acronyms w

unfoldable pub add_acronyms : List (Text × Text) → (Text → Option Text) → Text → Option Text
unfolding add_acronym
add_acronyms [] acronyms = acronyms
add_acronyms ((a, b) ∷ acros) acronyms = add_acronyms acros (add_acronym a b acronyms)

-- `NewCaser()`.
abbrev pub new_caser : Text → Option Text
new_caser w = none

-- The words that `ToLowerGoIdent` does not return.
abbrev pub reserved_words : List Text
reserved_words =
    codes "func"
    ∷ codes "interface"
    ∷ codes "select"
    ∷ codes "case"
    ∷ codes "defer"
    ∷ codes "go"
    ∷ codes "map"
    ∷ codes "struct"
    ∷ codes "chan"
    ∷ codes "else"
    ∷ codes "goto"
    ∷ codes "package"
    ∷ codes "switch"
    ∷ codes "const"
    ∷ codes "fallthrough"
    ∷ codes "if"
    ∷ codes "range"
    ∷ codes "type"
    ∷ codes "continue"
    ∷ codes "for"
    ∷ codes "import"
    ∷ codes "return"
    ∷ codes "var"
    ∷ []

-- `unicode.IsLetter` and `unicode.IsDigit`.
module _ (is_letter is_digit : ℕ → Bool) where
  -- The second loop of `sanitize`; the flag is `prevUnderscore`.
  unfoldable pub sanitize_rest : Bool → Text → Text
  sanitize_rest prev [] = []
  sanitize_rest prev (ch ∷ s) =
      let plain = sanitize_rest false s in
      let replaced = sanitize_rest true s in
      if is_letter ch || is_digit ch then ch ∷ plain else if prev then replaced else b'_' ∷ replaced

  -- `sanitize(s)`.
  unfoldable pub sanitize : Text → Text
  unfolding sanitize_rest
  sanitize [] = []
  sanitize (ch ∷ s) =
      let later = sanitize s in
      if is_letter ch || ch == b'_' then ch ∷ sanitize_rest (ch == b'_') s else later

-- `unicode.ToLower` and `unicode.ToUpper`, and the acronyms.
module _ (to_lower to_upper : ℕ → ℕ) (acronyms : Text → Option Text) where
  -- `appendUpperCamel(sb, chars)`.
  unfoldable pub append_upper_camel : Text → Text → Text
  append_upper_camel sb [] = sb
  append_upper_camel sb (first ∷ chars) = elim (acronyms (map to_lower (first ∷ chars))) [
    | some a ↦ sb ++ a
    | none ↦ sb ++ to_upper first ∷ chars
  ]

  -- `appendLowerCamel(sb, chars)`.
  unfoldable pub append_lower_camel : Text → Text → Text
  append_lower_camel sb [] = sb
  append_lower_camel [] (first ∷ chars) = elim (acronyms (map to_lower (first ∷ chars))) [
    | some a ↦ map to_lower a
    | none ↦ map to_lower (first ∷ chars)
  ]
  append_lower_camel (c ∷ sb) (first ∷ chars) = elim (acronyms (map to_lower (first ∷ chars))) [
    | some a ↦ (c ∷ sb) ++ a
    | none ↦ (c ∷ sb) ++ to_upper first ∷ chars
  ]

-- `unicode.IsUpper`, and the converter.
module _ (is_upper : ℕ → Bool) (converter : Text → Text → Text) where
  -- The loop of `convert`; `word` is `chars[lo:hi]`, and the flag is `isUpSpan`.
  unfoldable pub convert_loop : Bool → Text → Text → Text → Text
  convert_loop up word [] sb = converter sb word
  convert_loop up word (ch ∷ s) sb =
      let up' = byte_length word == 1 || up in
      let ended = convert_loop false [] s (converter sb word) in
      let spanned = convert_loop true (word ++ ch ∷ []) s sb in
      let started = convert_loop false (ch ∷ []) s (converter sb word) in
      let longer = convert_loop false (word ++ ch ∷ []) s sb in
      if ch == b'_'
      then ended
      else if is_upper ch
      then (if up' then spanned else started)
      else longer

  -- `convert(s, converter)`.
  unfoldable pub convert : Text → Text
  unfolding convert_loop trim_space
  convert s = elim (trim_space s) [ [] ↦ [] | c ∷ chars ↦ convert_loop false [] (c ∷ chars) [] ]

-- The switch of `ToLowerGoIdent`.
unfoldable pub unreserved : Text → Text
unfolding contains
unreserved con = if contains reserved_words con then con ++ codes "_" else con

module _ (is_letter is_digit is_upper : ℕ → Bool) (to_lower to_upper : ℕ → ℕ)
    (acronyms : Text → Option Text) where
  -- `ToUpperGoIdent(s)`.
  unfoldable pub to_upper_go_ident : Text → Text
  unfolding sanitize convert append_upper_camel
  to_upper_go_ident s =
      let san = sanitize is_letter is_digit s in
      if is_empty san
      then []
      else convert is_upper (append_upper_camel to_lower to_upper acronyms) san

  -- `ToLowerGoIdent(s)`.
  unfoldable pub to_lower_go_ident : Text → Text
  unfolding sanitize convert append_lower_camel unreserved
  to_lower_go_ident s =
      let san = sanitize is_letter is_digit s in
      if is_empty san
      then []
      else unreserved (convert is_upper (append_lower_camel to_lower to_upper acronyms) san)
