-- ===== src/Parser/Pragmas/Valid.antt =====
-- The values of the pragmas that `parsePragmas` lets through.
use pggen.Prelude.{
  ℕ, ◌≡◌, refl, ◌↔◌, inl, inr, true, ◌&&◌, ◌||◌, [], ◌∷◌, ◌==◌, leb, Bool-cases, All,
}
use pggen.Prelude.Result.{ok}
use pggen.Prelude.Text.{Text}
use pggen.Parser.Pragmas.{is_ascii_letter, is_ascii_digit, ident_rest, validate_go_exported_ident}

-- A byte of `[a-zA-Z0-9_]`.
abbrev pub IsWordByte : ℕ → Type 0
IsWordByte c = (is_ascii_letter c || is_ascii_digit c || c == b'_') ≡ true

-- A Go identifier that is exported: an upper case letter, and letters, digits and underscores.
abbrev pub IsExported : Text → Type 0
IsExported [] = ⊥
IsExported (c ∷ s) = ((leb b'A' c && leb c b'Z') ≡ true) × All IsWordByte s

ident_rest_iff : (val s : Text) → (ident_rest val s ≡ ok tt) ↔ All IsWordByte s
unfolding ident_rest
ident_rest_iff val [] = (λ e. tt, λ h. refl)
ident_rest_iff val (c ∷ s) =
    elim (Bool-cases (is_ascii_letter c || is_ascii_digit c || c == b'_')) [
      | inl e ↦ rw e (λ h. (refl, (ident_rest_iff val s).0 h), λ h. (ident_rest_iff val s).1 h.1)
      | inr e ↦ rw e (λ h. cc, λ h. cc)
    ]

-- `validateGoExportedIdent` lets through the texts of an upper case letter and then letters,
-- digits and underscores, and nothing else.
pub validate_go_exported_ident_iff :
    (val : Text) → (validate_go_exported_ident val ≡ ok tt) ↔ IsExported val
unfolding validate_go_exported_ident
validate_go_exported_ident_iff [] = (λ h. cc, λ h. absurd h)
validate_go_exported_ident_iff (c ∷ s) = elim (Bool-cases (leb b'A' c && leb c b'Z')) [
  | inl e ↦
      rw e (λ h. (refl, (ident_rest_iff (c ∷ s) s).0 h), λ h. (ident_rest_iff (c ∷ s) s).1 h.1)
  | inr e ↦ rw e (λ h. cc, λ h. cc)
]
