-- ===== src/Codegen/Declarers/Declare.antt =====
-- The texts of declarer_composite.go and declarer_enum.go of internal/codegen/golang. `quote` is
-- `strconv.Quote`.
use pggen.Prelude.{ℕ, suc, ◌-◌, ◌+◌, List, [], ◌∷◌, Option, none, some, if◌then◌else◌}
use pggen.Prelude.Text.{Text, codes, is_empty, byte_length}
use pggen.GoType.{GoTypes}
use pggen.Codegen.Emit.{concat, padded, spaces, longest}
use pggen.Codegen.Declarers.{push_type, qualify_fields}

module _ (quote : Text → Text) where
  -- The loop over the fields. A name without a type or a column is an index out of range.
  unfoldable pub composite_fields : ℕ → ℕ → List Text → List Text → List Text → Option (List Text)
  composite_fields name_len type_len [] types columns = some []
  composite_fields name_len type_len (name ∷ names) (t ∷ types) (column ∷ columns) =
      push_type
        (some (
          concat (
            codes "\t"
            ∷ padded name_len name
            ∷ padded type_len t
            ∷ codes "`json:"
            ∷ quote column
            ∷ codes "`\n"
            ∷ [])))
        (composite_fields name_len type_len names types columns)
  composite_fields name_len type_len (name ∷ names) [] columns = none
  composite_fields name_len type_len (name ∷ names) (t ∷ types) [] = none

  abbrev pub represents : Text → Text → Text → Text
  represents name what sql =
      if is_empty sql then [] else concat (codes "// " ∷ name ∷ what ∷ quote sql ∷ codes ".\n" ∷ [])

  abbrev pub open_brace : List Text → Text
  open_brace [] = codes "{"
  open_brace (f ∷ fs) = codes " {\n"

  abbrev pub identity : Text → Text
  identity s = s

  -- `CompositeTypeDeclarer.Declare(pkgPath)`, with `longestNameType`.
  unfoldable pub declare_composite :
      Text → Text → List Text → Text → List Text → GoTypes → Option Text
  unfolding qualify_fields composite_fields
  declare_composite pkg sql columns name fields types = elim (qualify_fields pkg types) [
    | none ↦ none
    | some qual_types ↦
        elim (composite_fields (suc (longest identity 0 fields))
          (suc (longest identity 0 qual_types)) fields qual_types columns) [
            | none ↦ none
            | some lines ↦ some (
                concat (
                  represents name (codes " represents the Postgres composite type ") sql
                  ∷ codes "type "
                  ∷ name
                  ∷ codes " struct"
                  ∷ open_brace fields
                  ∷ concat lines
                  ∷ codes "}"
                  ∷ []))
          ]
  ]

  -- The loop over the labels of an enum. A label without a value is an index out of range.
  unfoldable pub enum_lines : ℕ → Text → List Text → List Text → Option (List Text)
  enum_lines name_len name [] values = some []
  enum_lines name_len name (label ∷ labels) [] = none
  enum_lines name_len name (label ∷ labels) (value ∷ values) =
      push_type
        (some (
          concat (
            codes "\t"
            ∷ label
            ∷ spaces (name_len + 1 - byte_length label)
            ∷ name
            ∷ codes " = "
            ∷ quote value
            ∷ codes "\n"
            ∷ [])))
        (enum_lines name_len name labels values)

  -- The Stringer of an enum; an empty name has no first byte.
  abbrev pub stringer : Text → Text → Option Text
  stringer [] name = none
  stringer (c ∷ s) name = some (
      concat (
        codes "func ("
        ∷ (c ∷ [])
        ∷ codes " "
        ∷ name
        ∷ codes ") String() string { return string("
        ∷ (c ∷ [])
        ∷ codes ") }"
        ∷ []))

  -- `EnumTypeDeclarer.Declare`; `to_lower` is `strings.ToLower`, and an enum's name is taken to begin
  -- with a letter of ASCII.
  unfoldable pub declare_enum : (Text → Text) → Text → Text → List Text → List Text → Option Text
  unfolding enum_lines
  declare_enum to_lower sql name labels values =
      elim (enum_lines (longest identity 0 labels) name labels values) [
        | none ↦ none
        | some lines ↦ elim (stringer (to_lower name) name) [
          | none ↦ none
          | some method ↦ some (
              concat (
                represents name (codes " represents the Postgres enum ") sql
                ∷ codes "type "
                ∷ name
                ∷ codes " string\n\n"
                ∷ codes "const (\n"
                ∷ concat lines
                ∷ codes ")\n\n"
                ∷ method
                ∷ []))
        ]
      ]
