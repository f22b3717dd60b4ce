-- ===== src/Codegen/Names/Unique.antt =====
-- What validateSQLConstNames lets through.
use pggen.Codegen.Names.Reserved.{
  Entries, Lookup, entries, find_name-Lookup, found, has, has-declared_names, in_file, missing,
  sql_consts, struct_names,
}
use pggen.Prelude.{
  ◌≡◌, refl, ◌∙◌, ap, ◌≢◌, ◌↔◌, inl, inr, Bool, true, false, not, ◌&&◌, List, [], ◌∷◌, Option,
  arith, if◌then◌else◌, Bool-cases, All,
}
use pggen.Prelude.Result.{Result, ok, err, ◌>>=◌}
use pggen.Prelude.Text.{Text, eq_iff, is_empty, contains, IsDistinct}
use pggen.Codegen.{TemplatedQuery, TemplatedFile, all_queries}
use pggen.Codegen.Names.{
  Decl, Names, find_name, declared_names, check_const, claim, NameError, check_consts, check_files,
  validate_sql_const_names,
}

-- The second loop over the queries of the whole package: whether it comes to its end.
unfoldable passes : Names → Entries → Names → Bool
unfolding has
passes declared [] by_name = true
passes declared ((path, q) ∷ es) by_name =
    let owner : Decl = record { file = path; what = q.name } in
    let named = passes declared es ((q.sql_const, owner) ∷ by_name) in
    let unnamed = passes declared es by_name in
    if is_empty q.sql_const
    then unnamed
    else (not (has by_name q.sql_const) && not (has declared q.sql_const)) && named

-- Whether a run has a result, and then what holds of it.
abbrev accepted : (Names → Bool) → Result NameError Names → Bool
accepted next (ok ns) = next ns
accepted next (err e) = false

accepted-bind :
    (next : Names → Bool) (m : Result NameError Names) (k : Names → Result NameError Names)
    → accepted next (m >>= k) ≡ accepted (λ ns. accepted next (k ns)) m
accepted-bind next (ok ns) k = refl
accepted-bind next (err e) k = refl

claim-accepted :
    (path : Text) (q : TemplatedQuery) (by_name : Names) (next : Names → Bool)
    {prev struct : Option Decl} {b c : Bool}
    → Lookup prev b
    → Lookup struct c
    → accepted next (claim path q by_name prev struct)
      ≡ ((not b && not c) && next ((q.sql_const, record { file = path; what = q.name }) ∷ by_name))
claim-accepted path q by_name next found h = refl
claim-accepted path q by_name next missing found = refl
claim-accepted path q by_name next missing missing = refl

check_consts-passes :
    (declared : Names) (path : Text) (qs : List TemplatedQuery) (es : Entries) (next : Names → Bool)
    (by_name : Names)
    → ((ns : Names) → next ns ≡ passes declared es ns)
    → accepted next (check_consts declared path qs by_name)
      ≡ passes declared (in_file path qs es) by_name
unfolding check_consts check_const passes
check_consts-passes declared path [] es next by_name h = h by_name
check_consts-passes declared path (q ∷ qs) es next by_name h =
    let rest = λ (ns : Names). check_consts-passes declared path qs es next ns h in
    elim (Bool-cases (is_empty q.sql_const)) [
      | inl e ↦ rw e (rest by_name)
      | inr e ↦ rw e (
          accepted-bind next
            (claim path q by_name (find_name by_name q.sql_const) (find_name declared q.sql_const))
            (check_consts declared path qs)
          ∙ claim-accepted path q by_name (λ ns. accepted next (check_consts declared path qs ns))
              (find_name-Lookup by_name q.sql_const) (find_name-Lookup declared q.sql_const)
          ∙ ap (λ b. (not (has by_name q.sql_const) && not (has declared q.sql_const)) && b)
              (rest ((q.sql_const, record { file = path; what = q.name }) ∷ by_name)))
    ]

check_files-passes :
    (declared : Names) (fs : List TemplatedFile) (by_name : Names)
    → accepted (λ ns. true) (check_files declared fs by_name) ≡ passes declared (entries fs) by_name
unfolding check_files entries
check_files-passes declared [] by_name = unfold passes in refl
check_files-passes declared (f ∷ fs) by_name =
    accepted-bind (λ ns. true) (check_consts declared f.source_path (all_queries f) by_name)
      (check_files declared fs)
    ∙ check_consts-passes declared f.source_path (all_queries f) (entries fs)
        (λ ns. accepted (λ ns. true) (check_files declared fs ns)) by_name
        (check_files-passes declared fs)

validate-passes :
    (fs : List TemplatedFile)
    → (validate_sql_const_names fs ≡ ok tt) ↔ (passes (declared_names fs []) (entries fs) [] ≡ true)
unfolding validate_sql_const_names
validate-passes fs =
    go (check_files (declared_names fs []) fs []) (check_files-passes (declared_names fs []) fs [])
  where
    go :
        (r : Result NameError Names) {b : Bool}
        → accepted (λ ns. true) r ≡ b
        → (((r >>= λ by_name. ok (tt {0})) ≡ ok tt) → b ≡ true)
          × (b ≡ true → (r >>= λ by_name. ok (tt {0})) ≡ ok tt)
    go (ok ns) h = ground (arith, h)
    go (err e) h = ground (arith, h)

-- What a text is added to is missed by the others if the text is none of them.
split_has :
    (c : Text) (d : Decl) (ns : Names) (cs : List Text)
    → All (λ x. has ((c, d) ∷ ns) x ≡ false) cs
      ↔ (All (λ x. c ≢ x) cs × All (λ x. has ns x ≡ false) cs)
unfolding has
split_has c d ns [] = ground arith
split_has c d ns (x ∷ cs) =
    let rest = split_has c d ns cs in let e = eq_iff c x in ground (arith, rest, e)

passes_iff :
    (declared : Names) (es : Entries) (by_name : Names)
    → (passes declared es by_name ≡ true) ↔ (
        (All (λ c. has declared c ≡ false) (sql_consts es)
          × All (λ c. has by_name c ≡ false) (sql_consts es))
        × IsDistinct (sql_consts es))
unfolding passes sql_consts
passes_iff declared [] by_name = ground arith
passes_iff declared ((path, q) ∷ es) by_name = elim (Bool-cases (is_empty q.sql_const)) [
  | inl e ↦ rw e (passes_iff declared es by_name)
  | inr e ↦
      let owner : Decl = record { file = path; what = q.name } in
      let rest = passes_iff declared es ((q.sql_const, owner) ∷ by_name) in
      let split = split_has q.sql_const owner by_name (sql_consts es) in
      rw e (ground (arith, rest, split))
]

-- On names that are not empty, the map of the first loop has those of the structs.
declared_structs :
    (fs : List TemplatedFile) (es : Entries)
    → All (λ c. has (declared_names fs []) c ≡ false) (sql_consts es)
      ↔ All (λ c. contains (struct_names (entries fs)) c ≡ false) (sql_consts es)
unfolding sql_consts
declared_structs fs [] = ground arith
declared_structs fs ((path, q) ∷ es) =
    let rest = declared_structs fs es in
    elim (Bool-cases (is_empty q.sql_const)) [
      | inl e ↦ rw e rest
      | inr e ↦
          let same : has (declared_names fs []) q.sql_const
              ≡ contains (struct_names (entries fs)) q.sql_const =
            unfold has in has-declared_names fs [] q.sql_const e in
          rw e (ground (arith, rest, same))
    ]

no_names : (cs : List Text) → All (λ c. has [] c ≡ false) cs
unfolding has
no_names [] = tt
no_names (c ∷ cs) = (refl, no_names cs)

-- ValidateSQLConstNames lets a package through exactly if the names that its pragmas give are
-- different from each other, and none is the name that the row struct or a params struct of
-- one of the package's queries has or would have.
pub validate_sql_const_names_iff :
    (files : List TemplatedFile)
    → (validate_sql_const_names files ≡ ok tt) ↔ (
        IsDistinct (sql_consts (entries files))
        × All (λ c. contains (struct_names (entries files)) c ≡ false) (sql_consts (entries files)))
validate_sql_const_names_iff files =
    let flat = validate-passes files in
    let fresh = passes_iff (declared_names files []) (entries files) [] in
    let structs = declared_structs files (entries files) in
    let none_yet = no_names (sql_consts (entries files)) in
    ground (arith, flat, fresh, structs, none_yet)
