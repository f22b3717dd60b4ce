-- ===== src/Ch/Params/Found.antt =====
-- The parameters that `ScanParams` finds.
use pggen.Prelude.{
  ◌≡◌, ap, sym, ◌∙◌, ◌≢◌, inl, inr, List, [], ◌∷◌, ◌++◌, none, some, if◌then◌else◌, Bool-cases,
  Option-cases, All, All-append,
}
use pggen.Prelude.Result.{ok, err}
use pggen.Prelude.Text.{Text, eq, eq-false}
use pggen.Ch.Types.{ChType, to_string}
use pggen.Ch.Params.{
  Param, out_of_fuel, seen, add_param, scan_params, scan_sql, write_text, substitute_identifiers,
  rewrite_params, rename_params,
}
use pggen.Ch.Params.Scan.{Ensures, scanned, refused, Ensures-ok, Ensures-ne-out_of_fuel, IsParam}
use pggen.Ch.Params.Invariant.{scan_sql-Ensures}

-- No two parameters have one name.
abbrev pub Distinct : List Param → Type 0
Distinct [] = Unit
Distinct (p ∷ ps) = All (λ q. p.name ≢ q.name) ps × Distinct ps

Distinct-append :
    (ps : List Param) (p : Param)
    → Distinct ps
    → All (λ q. q.name ≢ p.name) ps
    → Distinct (ps ++ p ∷ [])
Distinct-append [] p d h = (tt, tt)
Distinct-append (q ∷ ps) p d h =
    (All-append _ ps (p ∷ []) d.0 (h.0, tt), Distinct-append ps p d.1 h.1)

some_ne_none : (t : ChType) → some t ≢ none
some_ne_none t = cc

seen-none : (name : Text) (ps : List Param) → seen name ps ≡ none → All (λ q. q.name ≢ name) ps
unfolding seen
seen-none name [] h = tt
seen-none name (p ∷ ps) h = elim (Bool-cases (eq p.name name)) [
  | inl e ↦
      absurd (some_ne_none p.type (sym (ap (λ b. if b then some p.type else seen name ps) e) ∙ h))
  | inr e ↦ (
    eq-false p.name name e,
    seen-none name ps (sym (ap (λ b. if b then some p.type else seen name ps) e) ∙ h),
  )
]

abbrev pub AreFound : List Param → Type 0
AreFound ps = Distinct ps × All IsParam ps

add_param-Ensures :
    (p : Param) (ps : List Param) → IsParam p → AreFound ps → Ensures AreFound (add_param p ps)
unfolding add_param
add_param-Ensures p ps h found = elim (Option-cases (seen p.name ps)) [
  | inl e ↦ rw e (
      scanned (
        Distinct-append ps p found.0 (seen-none p.name ps e),
        All-append IsParam ps (p ∷ []) found.1 (h, tt),
      ))
  | inr (t, e) ↦ elim (Bool-cases (eq (to_string t) (to_string p.type))) [
    | inl e' ↦ rw (e, e') (scanned found)
    | inr e' ↦ rw (e, e') (refused (cc))
  ]
]

scan_params-Ensures : (sql : Text) → Ensures AreFound (scan_params sql)
unfolding scan_params
scan_params-Ensures sql =
    scan_sql-Ensures (λ text ps. ps) add_param AreFound (λ t ps h. h) add_param-Ensures sql []
      (tt, tt)

-- The parameters that ScanParams finds have different names, and each has a name that is not
-- empty and has no space at its ends, and a type that is canonical.
pub scan_params-AreFound : (sql : Text) {ps : List Param} → scan_params sql ≡ ok ps → AreFound ps
scan_params-AreFound sql e = Ensures-ok (scan_params-Ensures sql) e

written_Ensures :
    (f : Param → Text) (sql : Text)
    → Ensures {0, 0} (λ out. Unit) (scan_sql write_text (λ p sb. ok (sb ++ f p)) sql [])
written_Ensures f sql =
    scan_sql-Ensures write_text (λ p sb. ok (sb ++ f p)) (λ out. Unit) (λ t st h. tt)
      (λ p st h h'. scanned tt) sql [] tt

-- On every text each of the four functions that scan a query comes to an end: the fuel is
-- enough.
pub scan-ne-out_of_fuel :
    (sql : Text) (rename values : Text → Text)
    → (scan_params sql ≢ err out_of_fuel)
      × (rename_params sql rename ≢ err out_of_fuel)
      × (rewrite_params sql ≢ err out_of_fuel)
      × (substitute_identifiers sql values ≢ err out_of_fuel)
unfolding rename_params rewrite_params substitute_identifiers
scan-ne-out_of_fuel sql rename values = (
  Ensures-ne-out_of_fuel (scan_params-Ensures sql),
  Ensures-ne-out_of_fuel (written_Ensures _ sql),
  Ensures-ne-out_of_fuel (written_Ensures _ sql),
  Ensures-ne-out_of_fuel (written_Ensures _ sql),
)
