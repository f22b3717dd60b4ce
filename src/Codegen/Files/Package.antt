-- ===== src/Codegen/Files/Package.antt =====
-- What holds of the files that TemplateAll returns.
use mathlib.Core.Path.{subst}
use pggen.Prelude.{ℕ, suc, ◌≡◌, refl, sym, Bool, false, List, [], ◌∷◌, map, Option, none, some, All}
use pggen.Prelude.Result.{Result, ok, err, ◌>>=◌, map_err, Returns, Returns-bind}
use pggen.Prelude.Text.{Text, contains, IsDistinct}
use pggen.GoType.{GoType}
use pggen.Codegen.{Dialect, SqlType, QueryFile, TemplatedFile}
use pggen.Codegen.Names.{validate_sql_const_names}
use pggen.Codegen.Names.Reserved.{Entries, entries, sql_consts, struct_names}
use pggen.Codegen.Names.Unique.{validate_sql_const_names_iff}
use pggen.Codegen.Shared.{build_shared_row_declarers}
use pggen.GoType.Imports.{sorted_imports, sorted_packages, group_by_short, alias_of, aliases_of}
use pggen.Codegen.Templater.{leader_index, Gathered, resolve_queries, or_panic}
use pggen.Codegen.Declarers.{Declarer}
use pggen.Codegen.Files.{
  FileError, in_file, bad_name, bad_rows, with_leader, is_index, add_strings, drop_imports,
  drop_self, finish_files, first_packages, template_queries, template_file, template_files,
  template_all,
}

-- No constant has the name of another or of a struct.
abbrev pub HasNames : Entries → Type 0
HasNames es =
    IsDistinct (sql_consts es) × All (λ c. contains (struct_names es) c ≡ false) (sql_consts es)

-- The file at an index, and no other, is the leader; each file is that of its source.
abbrev pub IsLed : Option ℕ → ℕ → List QueryFile → List TemplatedFile → Type 0
IsLed leader i [] [] = Unit
IsLed leader i (q ∷ qs) (f ∷ fs) =
    ((f.is_leader ≡ is_index leader i) × (f.source_path ≡ q.source_path))
    × IsLed leader (suc i) qs fs
IsLed leader i [] (f ∷ fs) = ⊥
IsLed leader i (q ∷ qs) [] = ⊥

-- What TemplateAll returns for some files.
abbrev pub IsPackage : List QueryFile → List TemplatedFile × List Declarer → Type 0
IsPackage files r =
    HasNames (entries r.0)
    × IsLed (leader_index (map (λ (f : QueryFile). f.source_path) files)) 0 files r.0

-- The file of a source, and the files of some, as the loops return them.
abbrev IsFileOf : QueryFile → Bool → TemplatedFile × List Declarer × List Text → Type 0
IsFileOf file b r = (r.0.is_leader ≡ b) × (r.0.source_path ≡ file.source_path)

abbrev AreLed :
    Option ℕ → ℕ → List QueryFile → List TemplatedFile × List Declarer × List Text → Type 0
AreLed leader i files r = IsLed leader i files r.0

Returns-self {ℓ κ} : {E : Type κ} {A : Type ℓ} (r : Result E A) → Returns (λ a. r ≡ ok a) r
Returns-self (ok a) = refl
Returns-self (err e) = tt

-- What holds of the rest of a run, whatever it is run on.
Returns-then {ℓ κ ℓ' μ} :
    {E : Type μ} {A : Type ℓ} {B : Type ℓ'} (Q : B → Type κ) (r : Result E A) (f : A → Result E B)
    → ((a : A) → Returns Q (f a))
    → Returns Q (r >>= f)
Returns-then Q (ok a) f k = k a
Returns-then Q (err e) f k = tt

Returns-map_err {ℓ κ μ ν} :
    {E : Type μ} {F : Type ν} {A : Type ℓ} (P : A → Type κ) (f : E → F) (r : Result E A)
    → Returns P r
    → Returns P (map_err f r)
Returns-map_err P f (ok a) h = h
Returns-map_err P f (err e) h = tt

Returns-with_leader {ℓ κ μ} :
    (E : Type ℓ) {A : Type κ} (P : A → Type μ) (leader : Option ℕ) (a : A)
    → P a
    → Returns {E = FileError E} P (with_leader leader a)
Returns-with_leader E P none a h = tt
Returns-with_leader E P (some i) a h = h

module _ {ℓ} {E : Type ℓ} (resolve : SqlType → Bool → Text → Result E GoType)
    (to_upper_ident to_lower_ident to_lower to_upper : Text → Text)
    (guess_package : Text → Option Text) (dialect : Dialect) (go_pkg : Text)
    (inline_param_count : ℕ) where
  abbrev finished : Bool → Bool → List TemplatedFile → List TemplatedFile
  finished =
      finish_files resolve to_upper_ident to_lower_ident to_lower to_upper guess_package dialect
        go_pkg inline_param_count

  -- The changes of the imports leave the queries alone, and the leader.
  finish_files-entries :
      (driver identifiers : Bool) (fs : List TemplatedFile)
      → entries (finished driver identifiers fs) ≡ entries fs
  unfolding finish_files drop_imports add_strings drop_self entries
  finish_files-entries driver identifiers [] = refl
  finish_files-entries driver identifiers (f ∷ fs) =
      rw (finish_files-entries driver identifiers fs) refl

  finish_files-IsLed :
      (driver identifiers : Bool) (leader : Option ℕ) (i : ℕ) (qs : List QueryFile)
      (fs : List TemplatedFile)
      → IsLed leader i qs fs
      → IsLed leader i qs (finished driver identifiers fs)
  unfolding finish_files drop_imports add_strings drop_self
  finish_files-IsLed driver identifiers leader i [] [] h = h
  finish_files-IsLed driver identifiers leader i (q ∷ qs) (f ∷ fs) h =
      (h.0, finish_files-IsLed driver identifiers leader (suc i) qs fs h.1)
  finish_files-IsLed driver identifiers leader i [] (f ∷ fs) h = absurd h
  finish_files-IsLed driver identifiers leader i (q ∷ qs) [] h = absurd h

  template_file-IsFileOf :
      (file : QueryFile) (b : Bool)
      → Returns (IsFileOf file b) (
          template_file resolve to_upper_ident to_lower_ident to_lower to_upper guess_package
            dialect go_pkg inline_param_count file b)
  unfolding template_file
  template_file-IsFileOf file b =
      let pkg_path : Text = elim (guess_package file.source_path) [ none ↦ [] | some p ↦ p ] in
      let start : Gathered = record {
        imports = first_packages dialect;
        declarers = [];
        pg_type_names = [];
      } in
      Returns-then (IsFileOf file b) (resolve_queries resolve pkg_path file.queries start) _ (λ d.
        Returns-then (IsFileOf file b)
          (or_panic resolve (group_by_short (sorted_packages d.1.imports) [])) _
          (λ groups.
            Returns-then (IsFileOf file b) (or_panic resolve (sorted_imports d.1.imports)) _
              (λ imports.
                Returns-then (IsFileOf file b)
                  (template_queries resolve to_upper_ident to_lower_ident to_lower to_upper
                    guess_package dialect go_pkg inline_param_count pkg_path
                    (alias_of (aliases_of groups)) d.0)
                  _ (λ queries. (refl, refl)))))

  template_files-AreLed :
      (leader : Option ℕ) (i : ℕ) (files : List QueryFile)
      → Returns (AreLed leader i files) (
          template_files resolve to_upper_ident to_lower_ident to_lower to_upper guess_package
            dialect go_pkg inline_param_count leader i files)
  unfolding template_files
  template_files-AreLed leader i [] = tt
  template_files-AreLed leader i (f ∷ fs) =
      Returns-bind (IsFileOf f (is_index leader i)) (AreLed leader i (f ∷ fs)) _ _
        (Returns-map_err (IsFileOf f (is_index leader i)) (in_file f.source_path) _
          (template_file-IsFileOf f (is_index leader i)))
        (λ a h.
          Returns-bind (AreLed leader (suc i) fs) (AreLed leader i (f ∷ fs)) _ _
            (template_files-AreLed leader (suc i) fs) (λ b k. (h, k)))

  -- If TemplateAll returns files, they are those of the sources in their order, the leader is
  -- the one at the leader's index and no other, and the names that the pragma sql= gives are
  -- different from each other, and none is the name that the row struct or a params struct of
  -- one of the package's queries has or would have.
  pub template_all-IsPackage :
      (files : List QueryFile)
      → Returns (IsPackage files) (
          template_all resolve to_upper_ident to_lower_ident to_lower to_upper guess_package dialect
            go_pkg inline_param_count files)
  unfolding template_all
  template_all-IsPackage files =
      let leader = leader_index (map (λ (f : QueryFile). f.source_path) files) in
      Returns-bind (AreLed leader 0 files) (IsPackage files) _ _
        (template_files-AreLed leader 0 files)
        (λ t led.
          Returns-bind (λ u. validate_sql_const_names t.0 ≡ ok u) (IsPackage files)
            (map_err bad_name (validate_sql_const_names t.0)) _
            (Returns-map_err (λ u. validate_sql_const_names t.0 ≡ ok u) bad_name _
              (Returns-self (validate_sql_const_names t.0)))
            (λ u valid.
              Returns-then (IsPackage files) (map_err bad_rows (build_shared_row_declarers t.0)) _
                (λ rows. Returns-with_leader E (IsPackage files) leader _ (
                  subst HasNames (sym (finish_files-entries _ _ t.0))
                      ((validate_sql_const_names_iff t.0).0 valid),
                  finish_files-IsLed _ _ leader 0 files t.0 led,
                ))))
