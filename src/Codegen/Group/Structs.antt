-- ===== src/Codegen/Group/Structs.antt =====
-- The constants and the struct that internal/codegen/golang/templated_file.go writes of a group.
-- `quote` is `strconv.Quote`.
use pggen.Prelude.{ℕ, suc, ◌-◌, List, [], ◌∷◌, ◌++◌, map}
use pggen.Prelude.Text.{Text, codes, byte_length}
use pggen.Codegen.{TemplatedParam, SortKeyConst, PaginateGroup}
use pggen.Codegen.Emit.{spaces, concat, longest, padded}

module _ (quote : Text → Text) where
  -- The line of a constant.
  abbrev pub const_line : ℕ → SortKeyConst → Text
  const_line width c =
      concat
        (codes "\t" ∷ padded width c.const_name ∷ codes " = " ∷ quote c.value ∷ codes "\n" ∷ [])

  -- `EmitSortKeyConsts()`.
  unfoldable pub emit_sort_key_consts : PaginateGroup → Text
  emit_sort_key_consts pg = elim pg.sort_key_consts [
    | [] ↦ []
    | c ∷ cs ↦ concat (
        codes "\n\nconst (\n"
        ∷ concat
            (map (const_line (longest (λ (c : SortKeyConst). c.const_name) 0 (c ∷ cs))) (c ∷ cs))
        ∷ codes ")"
        ∷ [])
  ]

  -- The fields of a group's struct: a name, a type and a tag.
  pub record Field : Type 0 where
    pub name : Text
    pub typ : Text
    pub tag : Text

  abbrev pub field_of : TemplatedParam → Field
  field_of input = record {
    name = input.upper_name;
    typ = input.qual_type;
    tag = quote input.raw_name.pg_name;
  }

  abbrev pub group_fields : PaginateGroup → List Field
  group_fields pg =
      map field_of pg.unified_inputs
      ++ record { name = codes "SortKey"; typ = codes "string"; tag = codes "\"sort_key\"" }
        ∷ record { name = codes "Descending"; typ = codes "bool"; tag = codes "\"descending\"" }
        ∷ []

  abbrev pub field_line : ℕ → ℕ → Field → Text
  field_line name_width type_width f = concat (
      codes "\t"
      ∷ f.name
      ∷ spaces (suc (name_width - byte_length f.name))
      ∷ f.typ
      ∷ spaces (suc (type_width - byte_length f.typ))
      ∷ codes "`json:"
      ∷ f.tag
      ∷ codes "`\n"
      ∷ [])

  -- `EmitParamStruct()` of a group.
  unfoldable pub emit_group_param_struct : PaginateGroup → Text
  emit_group_param_struct pg =
      let fields = group_fields pg in
      concat (
        codes "\n\ntype "
        ∷ pg.params_type_name
        ∷ codes " struct {\n"
        ∷ concat (
            map
              (field_line (longest (λ (f : Field). f.name) 0 fields)
                (longest (λ (f : Field). f.typ) 0 fields))
              fields)
        ∷ codes "}"
        ∷ [])
