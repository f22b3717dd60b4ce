-- ===== src/Codegen/Names/Reserved.antt =====
-- The names that the first loop of validateSQLConstNames finds declared.
use mathlib.Core.Path.{subst}
use pggen.Prelude.{
  ◌≡◌, refl, ◌∙◌, ap, inl, inr, Bool, true, false, ◌||◌, List, [], ◌∷◌, ◌++◌, Option, none, some,
  arith, if◌then◌else◌, Bool-cases,
}
use pggen.Prelude.Text.{Text, codes, eq, eq_iff, is_empty, contains}
use pggen.Codegen.{
  TemplatedQuery, TemplatedFile, is_variant, variant_params_type, row_type_name, all_queries,
}
use pggen.Codegen.Names.{
  Decl, Names, find_name, reserve, reserve_query, reserve_queries, declared_names,
}

-- The queries of a package, each with its file.
abbrev pub Entries : Type 0
Entries = List (Text × TemplatedQuery)

abbrev pub in_file : Text → List TemplatedQuery → Entries → Entries
in_file path [] es = es
in_file path (q ∷ qs) es = (path, q) ∷ in_file path qs es

unfoldable pub entries : List TemplatedFile → Entries
entries [] = []
entries (f ∷ fs) = in_file f.source_path (all_queries f) (entries fs)

-- The names that the pragmas give.
unfoldable pub sql_consts : Entries → List Text
sql_consts [] = []
sql_consts ((path, q) ∷ es) =
    let rest = sql_consts es in if is_empty q.sql_const then rest else q.sql_const ∷ rest

-- The names of the structs that the queries have, or would have.
unfoldable pub struct_names : Entries → List Text
struct_names [] = []
struct_names ((path, q) ∷ es) =
    let rest = struct_names es in
    let own = row_type_name q ∷ (q.name ++ codes "Params") ∷ rest in
    if is_variant q
    then row_type_name q ∷ (q.name ++ codes "Params") ∷ variant_params_type q ∷ rest
    else own

unfoldable pub has : Names → Text → Bool
unfolding eq
has [] x = false
has ((n, d) ∷ ns) x = eq n x || has ns x

-- A lookup finds something exactly for the names that the map has.
pub data Lookup : Option Decl → Bool → Type 0 where
  missing : Lookup none false
  found : {d : Decl} → Lookup (some d) true

pub find_name-Lookup : (ns : Names) (x : Text) → Lookup (find_name ns x) (has ns x)
unfolding find_name has
find_name-Lookup [] x = missing
find_name-Lookup ((n, d) ∷ ns) x = elim (Bool-cases (eq n x)) [
  | inl e ↦ rw e found
  | inr e ↦ rw e (find_name-Lookup ns x)
]

eq-nonempty : (n x : Text) → is_empty x ≡ false → is_empty n ≡ true → eq n x ≡ false
unfolding eq
eq-nonempty [] (c ∷ x) hx hn = refl
eq-nonempty [] [] hx hn = cc
eq-nonempty (d ∷ n) x hx hn = cc

has-eq : (ns : Names) (n x : Text) → has ns n ≡ true → eq n x ≡ true → has ns x ≡ true
has-eq ns n x h e = subst (λ y. has ns y ≡ true) ((eq_iff n x).0 e) h

has-reserve :
    (n : Text) (d : Decl) (ns : Names) (x : Text)
    → is_empty x ≡ false
    → has (reserve n d ns) x ≡ (eq n x || has ns x)
unfolding reserve has
has-reserve n d ns x hx = elim (Bool-cases (is_empty n)) [
  | inl e ↦ rw (e, eq-nonempty n x hx e) refl
  | inr e ↦ rw e (go (find_name-Lookup ns n) refl)
]
  where
    go :
        {o : Option Decl} {b : Bool}
        → Lookup o b
        → has ns n ≡ b
        → has (elim o [ none ↦ (n, d) ∷ ns | some _ ↦ ns ]) x ≡ (eq n x || has ns x)
    go missing h = unfold has in refl
    go found h = elim (Bool-cases (eq n x)) [ inl e ↦ rw e (has-eq ns n x h e) | inr e ↦ rw e refl ]

-- Two names reserved, one behind the other.
has-reserve_two :
    (m n : Text) (d e : Decl) (ns : Names) (x : Text)
    → is_empty x ≡ false
    → has (reserve m d (reserve n e ns)) x ≡ (eq m x || (eq n x || has ns x))
has-reserve_two m n d e ns x hx =
    has-reserve m d (reserve n e ns) x hx ∙ ap (λ b. eq m x || b) (has-reserve n e ns x hx)

or_two : (a b c d : Bool) → ((a || (b || c)) || d) ≡ (c || (b || (a || d)))
or_two a b c d = ground arith

or_three : (a b c d e : Bool) → ((a || (b || (c || d))) || e) ≡ (d || (c || (b || (a || e))))
or_three a b c d e = ground arith

has-reserve_query :
    (path : Text) (q : TemplatedQuery) (ns : Names) (x : Text) (es : Entries)
    → is_empty x ≡ false
    → (has (reserve_query path q ns) x || contains (struct_names es) x)
      ≡ (has ns x || contains (struct_names ((path, q) ∷ es)) x)
unfolding reserve_query struct_names contains
has-reserve_query path q ns x es hx =
    let row : Decl = record { file = path; what = codes "the row struct of " ++ q.name } in
    let params : Decl = record { file = path; what = codes "the params struct of " ++ q.name } in
    let group : Decl = record {
      file = path;
      what = codes "the params struct of " ++ q.variant_group;
    } in
    let two = has-reserve_two (q.name ++ codes "Params") (row_type_name q) params row ns x hx in
    elim (Bool-cases (is_variant q)) [
      | inl e ↦
          rw (e, has-reserve (variant_params_type q) group _ x hx, two)
            (or_three (eq (variant_params_type q) x) (eq (q.name ++ codes "Params") x)
              (eq (row_type_name q) x) (has ns x) (contains (struct_names es) x))
      | inr e ↦
          rw (e, two)
            (or_two (eq (q.name ++ codes "Params") x) (eq (row_type_name q) x) (has ns x)
              (contains (struct_names es) x))
    ]

has-reserve_queries :
    (path : Text) (qs : List TemplatedQuery) (ns : Names) (x : Text) (es : Entries)
    → is_empty x ≡ false
    → (has (reserve_queries path qs ns) x || contains (struct_names es) x)
      ≡ (has ns x || contains (struct_names (in_file path qs es)) x)
unfolding reserve_queries
has-reserve_queries path [] ns x es hx = refl
has-reserve_queries path (q ∷ qs) ns x es hx =
    has-reserve_queries path qs (reserve_query path q ns) x es hx
    ∙ has-reserve_query path q ns x (in_file path qs es) hx

pub has-declared_names :
    (fs : List TemplatedFile) (ns : Names) (x : Text)
    → is_empty x ≡ false
    → has (declared_names fs ns) x ≡ (has ns x || contains (struct_names (entries fs)) x)
unfolding declared_names entries contains struct_names has
has-declared_names [] ns x hx = ground arith
has-declared_names (f ∷ fs) ns x hx =
    has-declared_names fs (reserve_queries f.source_path (all_queries f) ns) x hx
    ∙ has-reserve_queries f.source_path (all_queries f) ns x (entries fs) hx
