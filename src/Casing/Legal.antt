-- ===== src/Casing/Legal.antt =====
-- What the identifiers are that the code makes of names.
use mathlib.Core.Path.{subst}
use pggen.Prelude.{
  ℕ, ◌≡◌, refl, ap, sym, ◌∙◌, inl, inr, Bool, true, false, ◌||◌, List, [], ◌∷◌, ◌++◌, Option, arith,
  ◌==◌, if◌then◌else◌, Bool-cases, All,
}
use pggen.Prelude.Text.{Text, codes, eq, eq_iff, is_empty, contains}
use pggen.Casing.{
  reserved_words, sanitize_rest, sanitize, convert, append_lower_camel, unreserved,
  to_lower_go_ident,
}

module _ (is_letter is_digit : ℕ → Bool) where
  -- A text with the shape of a Go identifier.
  abbrev pub IsIdent : Text → Type 0
  IsIdent [] = Unit
  IsIdent (c ∷ s) =
      ((is_letter c || c == b'_') ≡ true)
      × All (λ d. ((is_letter d || is_digit d) || d == b'_') ≡ true) s

  sanitize_rest-All :
      (prev : Bool) (s : Text)
      → All
          (λ d. ((is_letter d || is_digit d) || d == b'_') ≡ true)
          (sanitize_rest is_letter is_digit prev s)
  unfolding sanitize_rest
  sanitize_rest-All prev [] = tt
  sanitize_rest-All prev (ch ∷ s) =
      let plain = sanitize_rest-All false s in
      let replaced = sanitize_rest-All true s in
      elim (Bool-cases (is_letter ch || is_digit ch)) [
        | inl e ↦ rw e (ap (λ b. b || ch == b'_') e, plain)
        | inr e ↦ rw e (by_flag prev replaced)
      ]
    where
      by_flag :
          (b : Bool)
          → All
              (λ d. ((is_letter d || is_digit d) || d == b'_') ≡ true)
              (sanitize_rest is_letter is_digit true s)
          → All
              (λ d. ((is_letter d || is_digit d) || d == b'_') ≡ true)
              (if b
                then sanitize_rest is_letter is_digit true s
                else b'_' ∷ sanitize_rest is_letter is_digit true s)
      by_flag true h = h
      by_flag false h = (or_true (is_letter b'_' || is_digit b'_'), h)
        where
          or_true : (b : Bool) → (b || true) ≡ true
          or_true true = refl
          or_true false = refl

  sanitize_rest_idem :
      (prev : Bool) (s : Text)
      → (is_letter b'_' || is_digit b'_') ≡ false
      → sanitize_rest is_letter is_digit prev (sanitize_rest is_letter is_digit prev s)
        ≡ sanitize_rest is_letter is_digit prev s
  unfolding sanitize_rest
  sanitize_rest_idem prev [] h = refl
  sanitize_rest_idem prev (ch ∷ s) h =
      ground (arith, sanitize_rest_idem false s h, sanitize_rest_idem true s h)

  sanitize-IsIdent : (s : Text) → IsIdent (sanitize is_letter is_digit s)
  unfolding sanitize
  sanitize-IsIdent [] = tt
  sanitize-IsIdent (ch ∷ s) = elim (Bool-cases (is_letter ch || ch == b'_')) [
    | inl e ↦ rw e (e, sanitize_rest-All (ch == b'_') s)
    | inr e ↦ rw e (sanitize-IsIdent s)
  ]

  sanitize_idem :
      (s : Text)
      → (is_letter b'_' || is_digit b'_') ≡ false
      → sanitize is_letter is_digit (sanitize is_letter is_digit s) ≡ sanitize is_letter is_digit s
  unfolding sanitize
  sanitize_idem [] h = refl
  sanitize_idem (ch ∷ s) h = elim (Bool-cases (is_letter ch || ch == b'_')) [
    | inl e ↦ rw (e, e) (ap (◌∷◌ ch) (sanitize_rest_idem (ch == b'_') s h))
    | inr e ↦ rw e (sanitize_idem s h)
  ]

-- A sanitized name is empty or has the shape of a Go identifier, a letter or an underscore and
-- then letters, digits and underscores, and a second pass changes nothing: for tables in which
-- the underscore is no letter and no digit.
pub sanitize_lem :
    (is_letter is_digit : ℕ → Bool) (s : Text)
    → (is_letter b'_' || is_digit b'_') ≡ false
    → IsIdent is_letter is_digit (sanitize is_letter is_digit s)
      × (sanitize is_letter is_digit (sanitize is_letter is_digit s)
          ≡ sanitize is_letter is_digit s)
sanitize_lem is_letter is_digit s h =
    (sanitize-IsIdent is_letter is_digit s, sanitize_idem is_letter is_digit s h)

-- No reserved word is another one with an underscore.
abbrev Underscored : Text → Type 0
Underscored w = contains reserved_words (w ++ codes "_") ≡ false

contains-All :
    (words : List Text) (con : Text)
    → contains words con ≡ true
    → All Underscored words
    → Underscored con
unfolding contains
contains-All [] con e h = cc
contains-All (w ∷ words) con e h = elim (Bool-cases (eq w con)) [
  | inl e' ↦ subst Underscored ((eq_iff w con).0 e') h.0
  | inr e' ↦ contains-All words con (sym (ap (λ b. b || contains words con) e') ∙ e) h.1
]

reserved_words-Underscored : All Underscored reserved_words
unfolding contains eq
reserved_words-Underscored = (
  refl,
  (
    refl,
    (
      refl,
      (
        refl,
        (
          refl,
          (
            refl,
            (
              refl,
              (
                refl,
                (
                  refl,
                  (
                    refl,
                    (
                      refl,
                      (
                        refl,
                        (
                          refl,
                          (
                            refl,
                            (
                              refl,
                              (refl, (refl, (refl, (refl, (refl, (refl, (refl, (refl, tt)))))))),
                            ),
                          ),
                        ),
                      ),
                    ),
                  ),
                ),
              ),
            ),
          ),
        ),
      ),
    ),
  ),
)

unreserved-contains : (con : Text) → contains reserved_words (unreserved con) ≡ false
unfolding unreserved
unreserved-contains con = elim (Bool-cases (contains reserved_words con)) [
  | inl e ↦ rw e (contains-All reserved_words con e reserved_words-Underscored)
  | inr e ↦ rw (e, e) refl
]

empty_unreserved : contains reserved_words [] ≡ false
unfolding contains eq
empty_unreserved = refl

-- ToLowerGoIdent returns none of the reserved words that it lists, whatever the tables and the
-- acronyms are.
pub to_lower_go_ident-unreserved :
    (is_letter is_digit is_upper : ℕ → Bool) (to_lower to_upper : ℕ → ℕ)
    (acronyms : Text → Option Text) (s : Text)
    → contains reserved_words
        (to_lower_go_ident is_letter is_digit is_upper to_lower to_upper acronyms s)
      ≡ false
unfolding to_lower_go_ident
to_lower_go_ident-unreserved is_letter is_digit is_upper to_lower to_upper acronyms s =
    go (is_empty (sanitize is_letter is_digit s))
  where
    con : Text
    con =
        convert is_upper (append_lower_camel to_lower to_upper acronyms)
          (sanitize is_letter is_digit s)

    go : (b : Bool) → contains reserved_words (if b then [] else unreserved con) ≡ false
    go true = empty_unreserved
    go false = unreserved-contains con
