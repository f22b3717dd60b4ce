-- ===== src/Casing/Tests.antt =====
-- Runs of the functions on names over the tables of ASCII, and the theorems at concrete inputs.
use pggen.Prelude.{ℕ, ◌+◌, ◌-◌, ◌≡◌, refl, Bool, ◌&&◌, ◌||◌, [], ◌∷◌, Option, leb, if◌then◌else◌}
use pggen.Prelude.Text.{Text, codes, eq, contains, trim_space}
use pggen.Casing.{add_acronyms, new_caser, sanitize, to_upper_go_ident, to_lower_go_ident}
use pggen.Casing.Legal.{IsIdent, sanitize_lem}

abbrev is_upper : ℕ → Bool
is_upper c = leb b'A' c && leb c b'Z'

abbrev ascii_letter : ℕ → Bool
ascii_letter c = is_upper c || (leb b'a' c && leb c b'z')

abbrev is_digit : ℕ → Bool
is_digit c = leb b'0' c && leb c b'9'

abbrev to_lower : ℕ → ℕ
to_lower c = if is_upper c then c + 32 else c

abbrev to_upper : ℕ → ℕ
to_upper c = if leb b'a' c && leb c b'z' then c - 32 else c

abbrev acronyms : Text → Option Text
acronyms = add_acronyms ((codes "id", codes "ID") ∷ []) new_caser

to_upper_go_ident-acronym :
    to_upper_go_ident ascii_letter is_digit is_upper to_lower to_upper acronyms
      (codes "1user_id-XMLName")
    ≡ codes "UserIDXMLName"
unfolding to_upper_go_ident eq trim_space add_acronyms
to_upper_go_ident-acronym = refl

to_lower_go_ident-type :
    to_lower_go_ident ascii_letter is_digit is_upper to_lower to_upper acronyms (codes "Type")
    ≡ codes "type_"
unfolding to_lower_go_ident eq trim_space contains add_acronyms
to_lower_go_ident-type = refl

-- `default` is a keyword of Go that the switch does not list.
to_lower_go_ident-default :
    to_lower_go_ident ascii_letter is_digit is_upper to_lower to_upper acronyms (codes "default")
    ≡ codes "default"
unfolding to_lower_go_ident eq trim_space contains add_acronyms
to_lower_go_ident-default = refl

sanitize_lem_example :
    IsIdent ascii_letter is_digit (sanitize ascii_letter is_digit (codes "1a--b_"))
    × (sanitize ascii_letter is_digit (sanitize ascii_letter is_digit (codes "1a--b_"))
        ≡ sanitize ascii_letter is_digit (codes "1a--b_"))
sanitize_lem_example = sanitize_lem ascii_letter is_digit (codes "1a--b_") refl
