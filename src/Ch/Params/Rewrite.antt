-- ===== src/Ch/Params/Rewrite.antt =====
-- What the functions that rewrite a query make of its pieces.
use pggen.Prelude.{
  ◌≡◌, refl, ap, sym, ◌∙◌, Bool, true, false, not, ◌&&◌, if◌then◌else◌, List, [], ◌∷◌, ◌++◌,
  append_assoc, append-nil,
}
use pggen.Prelude.Result.{Result, ok}
use pggen.Prelude.Text.{Text, codes, eq, is_empty}
use pggen.Ch.Types.{
  ChType, scalar, fixed_string, decimal, date_time, date_time64, nullable, low_cardinality, array,
  map, enum, tuple, unsupported, to_string,
}
use pggen.Ch.Params.{
  Param, ScanError, emit_text, scan_sql, write_text, braces, substituted, substitute_identifiers,
  rewritten, rewrite_params, rename_params, is_identifier,
}
use pggen.Ch.Params.Pieces.{
  Piece, byte, literal, comment, param, render, IsQuery, output, run, scan_sql-render,
}

module _ (f : Param → Text) where
  abbrev write_param : Param → Text → Result ScanError Text
  write_param p sb = ok (sb ++ f p)

  emit_written : (text sb : Text) → emit_text write_text write_param text sb ≡ sb ++ text
  emit_written [] sb = sym (append-nil sb)
  emit_written (c ∷ text) sb = refl

  run-output :
      (text : Text) (ps : List Piece) (sb : Text)
      → run write_text write_param text ps sb ≡ ok (sb ++ (text ++ output f ps))
  run-output text [] sb = ap ok (emit_written text sb ∙ ap (λ t. sb ++ t) (sym (append-nil text)))
  run-output text (byte c ∷ ps) sb =
      run-output (text ++ c ∷ []) ps sb
      ∙ ap (λ t. ok (sb ++ t)) (append_assoc text (c ∷ []) (output f ps))
  run-output text (literal t ∷ ps) sb =
      run-output (text ++ t) ps sb ∙ ap (λ t'. ok (sb ++ t')) (append_assoc text t (output f ps))
  run-output text (comment t ∷ ps) sb =
      run-output (text ++ t) ps sb ∙ ap (λ t'. ok (sb ++ t')) (append_assoc text t (output f ps))
  run-output text (param name spelled p ∷ ps) sb =
      run-output [] ps (emit_text write_text write_param text sb ++ f p)
      ∙ ap ok (
          ap (λ t. (t ++ f p) ++ output f ps) (emit_written text sb)
          ∙ append_assoc (sb ++ text) (f p) (output f ps)
          ∙ append_assoc sb text (f p ++ output f ps))

  scan_sql-output :
      {ps : List Piece}
      → IsQuery ps
      → scan_sql write_text write_param (render ps) [] ≡ ok (output f ps)
  scan_sql-output {ps} q = scan_sql-render write_text write_param [] q ∙ run-output [] ps []

-- RenameParams gives each parameter its new name and the canonical spelling of its type, and
-- leaves every other byte of the query, its literals and its comments as they are.
pub rename_params-render :
    (rename : Text → Text) {ps : List Piece}
    → IsQuery ps
    → rename_params (render ps) rename
      ≡ ok (output (λ p. braces (rename p.name) (to_string p.type)) ps)
unfolding rename_params
rename_params-render rename q = scan_sql-output (λ p. braces (rename p.name) (to_string p.type)) q

-- A type that is written `Identifier`, and no other.
abbrev pub names_table : ChType → Bool
names_table (scalar name) = eq name (codes "Identifier")
names_table _ = false

-- What stands for a parameter behind RewriteParams, where it names a table and where not.
abbrev pub hole_or_cast : Bool → Param → Text
hole_or_cast true p = codes "{" ++ (p.name ++ codes ":Identifier}")
hole_or_cast false p =
    codes "cast(@" ++ (p.name ++ (codes " AS " ++ (to_string p.type ++ codes ")")))

-- What stands for a parameter behind SubstituteIdentifiers: the value of a name, or its spelling.
abbrev pub value_or_spelling : Bool → Text → Param → Text
value_or_spelling true (c ∷ value) p = c ∷ value
value_or_spelling _ _ p = codes "{" ++ (p.name ++ (codes ":" ++ (to_string p.type ++ codes "}")))

output-cong :
    (f g : Param → Text) (ps : List Piece) → ((p : Param) → f p ≡ g p) → output f ps ≡ output g ps
output-cong f g [] h = refl
output-cong f g (byte c ∷ ps) h = ap (◌∷◌ c) (output-cong f g ps h)
output-cong f g (literal t ∷ ps) h = ap (λ u. t ++ u) (output-cong f g ps h)
output-cong f g (comment t ∷ ps) h = ap (λ u. t ++ u) (output-cong f g ps h)
output-cong f g (param name spelled p ∷ ps) h = rw (h p, output-cong f g ps h) refl

is_identifier-names_table : (t : ChType) → is_identifier t ≡ names_table t
unfolding is_identifier
is_identifier-names_table (scalar name) = refl
is_identifier-names_table (fixed_string n) = refl
is_identifier-names_table (decimal p s) = refl
is_identifier-names_table (date_time zone) = refl
is_identifier-names_table (date_time64 p zone) = refl
is_identifier-names_table (nullable t) = refl
is_identifier-names_table (low_cardinality t) = refl
is_identifier-names_table (array t) = refl
is_identifier-names_table (map k v) = refl
is_identifier-names_table (enum bits items) = refl
is_identifier-names_table (tuple es) = refl
is_identifier-names_table (unsupported raw) = refl

rewritten-hole_or_cast : (p : Param) → rewritten p ≡ hole_or_cast (names_table p.type) p
unfolding rewritten
rewritten-hole_or_cast p =
    go (is_identifier p.type) (names_table p.type) (is_identifier-names_table p.type)
  where
    go :
        (a b : Bool)
        → a ≡ b
        → (if a
            then braces p.name (codes "Identifier")
            else codes "cast(@" ++ (p.name ++ (codes " AS " ++ (to_string p.type ++ codes ")"))))
          ≡ hole_or_cast b p
    go true true e = refl
    go false false e = refl
    go true false e = cc
    go false true e = cc

substituted-value_or_spelling :
    (values : Text → Text) (p : Param)
    → substituted values p ≡ value_or_spelling (names_table p.type) (values p.name) p
unfolding substituted
substituted-value_or_spelling values p =
    go (is_identifier p.type) (names_table p.type) (values p.name)
      (is_identifier-names_table p.type)
  where
    go :
        (a b : Bool) (v : Text)
        → a ≡ b
        → (if a && not (is_empty v) then v else braces p.name (to_string p.type))
          ≡ value_or_spelling b v p
    go true true [] e = refl
    go true true (c ∷ v) e = refl
    go false false [] e = refl
    go false false (c ∷ v) e = refl
    go true false v e = cc
    go false true v e = cc

-- RewriteParams turns each parameter of the type Identifier into its name and :Identifier in
-- braces, and each other into a cast of its name, behind an at sign, to the canonical spelling
-- of its type, and leaves every other byte of the query, its literals and its comments as they
-- are.
pub rewrite_params-render :
    {ps : List Piece}
    → IsQuery ps
    → rewrite_params (render ps) ≡ ok (output (λ p. hole_or_cast (names_table p.type) p) ps)
unfolding rewrite_params
rewrite_params-render {ps} q =
    scan_sql-output rewritten q ∙ ap ok (output-cong rewritten _ ps rewritten-hole_or_cast)

-- SubstituteIdentifiers puts the value of each parameter of the type Identifier in its place,
-- if it is not empty, writes every other parameter back in braces with the canonical spelling
-- of its type, and leaves every other byte of the query, its literals and its comments as they
-- are.
pub substitute_identifiers-render :
    (values : Text → Text) {ps : List Piece}
    → IsQuery ps
    → substitute_identifiers (render ps) values
      ≡ ok (output (λ p. value_or_spelling (names_table p.type) (values p.name) p) ps)
unfolding substitute_identifiers
substitute_identifiers-render values {ps} q =
    scan_sql-output (substituted values) q
    ∙ ap ok (output-cong (substituted values) _ ps (substituted-value_or_spelling values))
