-- ===== src/Ch/Params.antt =====
-- internal/ch/params.go: the `{name:Type}` parameters of a query.
pub mod Scan
pub mod Invariant
pub mod Found
pub mod Pieces
pub mod Rewrite
use pggen.Prelude.{
  ℕ, zero, suc, Bool, true, false, ◌&&◌, not, List, [], ◌∷◌, ◌++◌, Option, none, some, ◌==◌,
  if◌then◌else◌, length,
}
use pggen.Prelude.Result.{Result, ok, err, ◌>>=◌, map_err}
use pggen.Prelude.Text.{Text, codes, eq, cut, is_empty, trim_space}
use pggen.Ch.Types.{ChType, scalar, to_string}
use pggen.Ch.Parse.Lexer.{ParseError}
use pggen.Ch.Parse.{parse}
use pggen.Ch.Statements.{skip_comment, skip_literal}

pub record Param : Type 0 where
  pub name : Text
  pub type : ChType

-- The errors of `scanSQL` and its callers; `out_of_fuel` has no counterpart in the code.
pub data ScanError : Type 0 where
  unclosed_brace : ScanError
  missing_type missing_name : Text → ScanError
  bad_type : Text → ParseError → ScanError
  conflicting_types : Text → ChType → ChType → ScanError
  out_of_fuel : ScanError

-- The body of a parameter that has a name.
unfoldable pub named_param : Text → Text → Result ScanError Param
named_param [] spelled = err (missing_name spelled)
named_param (c ∷ name) spelled = map_err (bad_type (c ∷ name)) (parse (trim_space spelled)) >>= λ t.
    ok (record { name = c ∷ name; type = t })

abbrev pub param_body : Text → Option (Text × Text) → Result ScanError Param
param_body body none = err (missing_type body)
param_body body (some (name, spelled)) = named_param (trim_space name) spelled

abbrev pub param_braces : Option (Text × Text) → Result ScanError (Param × Text)
param_braces none = err unclosed_brace
param_braces (some (body, rest)) = param_body body (cut body b':') >>= λ p. ok (p, rest)

-- What `scanSQL` reads behind an opening brace: the parameter, and the text behind its closing brace.
unfoldable pub read_param : Text → Result ScanError (Param × Text)
unfolding named_param cut
read_param s = param_braces (cut s b'}')

-- `scanSQL`, over what its two callbacks keep: a state that `on_text` changes and `on_param` changes
-- or refuses.
module _ {ℓ} {S : Type ℓ} (on_text : Text → S → S) (on_param : Param → S → Result ScanError S) where
  -- `emitText`, of the text since the last parameter.
  abbrev pub emit_text : Text → S → S
  emit_text [] st = st
  emit_text (c ∷ text) st = on_text (c ∷ text) st

  -- Each round takes a unit of fuel and at least one byte; `text` is `sql[prev:i]`.
  unfoldable pub scan_loop : ℕ → Text → Text → S → Result ScanError S
  scan_loop zero sql text st = err out_of_fuel
  scan_loop (suc fuel) [] text st = ok (emit_text text st)
  scan_loop (suc fuel) (c ∷ s) text st = elim (skip_comment (c ∷ s)) [
    | some (comment, rest) ↦ scan_loop fuel rest (text ++ comment) st
    | none ↦ elim (skip_literal (c ∷ s)) [
      | some (literal, rest) ↦ scan_loop fuel rest (text ++ literal) st
      | none ↦ elim (c == b'{') [
        | true ↦ read_param s >>= λ (p, rest).
            on_param p (emit_text text st) >>= λ st'. scan_loop fuel rest [] st'
        | false ↦ scan_loop fuel s (text ++ c ∷ []) st
      ]
    ]
  ]

  unfoldable pub scan_sql : Text → S → Result ScanError S
  unfolding scan_loop skip_comment skip_literal read_param
  scan_sql sql st = scan_loop (suc (length sql)) sql [] st

-- The `seen` map of `ScanParams`: the types of the parameters found so far.
unfoldable pub seen : Text → List Param → Option ChType
unfolding eq
seen name [] = none
seen name (p ∷ params) = if eq p.name name then some p.type else seen name params

abbrev pub repeated : Param → List Param → Option ChType → Result ScanError (List Param)
repeated p params none = ok (params ++ p ∷ [])
repeated p params (some prev) =
    if eq (to_string prev) (to_string p.type)
    then ok params
    else err (conflicting_types p.name prev p.type)

unfoldable pub add_param : Param → List Param → Result ScanError (List Param)
unfolding seen eq to_string
add_param p params = repeated p params (seen p.name params)

-- `ScanParams(sql)`.
unfoldable pub scan_params : Text → Result ScanError (List Param)
unfolding scan_sql add_param
scan_params sql = scan_sql (λ text params. params) add_param sql []

-- `IsIdentifier(t)`.
unfoldable pub is_identifier : ChType → Bool
unfolding eq
is_identifier (scalar name) = eq name (codes "Identifier")
is_identifier t = false

abbrev pub write_text : Text → Text → Text
write_text text sb = sb ++ text

-- `{name:Type}`, as a rewriting puts it back.
abbrev pub braces : Text → Text → Text
braces name spelled = b'{' ∷ (name ++ b':' ∷ (spelled ++ b'}' ∷ []))

-- What `SubstituteIdentifiers` writes for a parameter.
unfoldable pub substituted : (Text → Text) → Param → Text
unfolding is_identifier to_string
substituted value p =
    if is_identifier p.type && not (is_empty (value p.name))
    then value p.name
    else braces p.name (to_string p.type)

-- `SubstituteIdentifiers(sql, value)`.
unfoldable pub substitute_identifiers : Text → (Text → Text) → Result ScanError Text
unfolding scan_sql substituted
substitute_identifiers sql value =
    scan_sql write_text (λ p sb. ok (sb ++ substituted value p)) sql []

-- What `RewriteParams` writes for a parameter.
unfoldable pub rewritten : Param → Text
unfolding is_identifier to_string
rewritten p =
    if is_identifier p.type
    then braces p.name (codes "Identifier")
    else codes "cast(@" ++ (p.name ++ (codes " AS " ++ (to_string p.type ++ codes ")")))

-- `RewriteParams(sql)`.
unfoldable pub rewrite_params : Text → Result ScanError Text
unfolding scan_sql rewritten
rewrite_params sql = scan_sql write_text (λ p sb. ok (sb ++ rewritten p)) sql []

-- `RenameParams(sql, rename)`.
unfoldable pub rename_params : Text → (Text → Text) → Result ScanError Text
unfolding scan_sql to_string
rename_params sql rename =
    scan_sql write_text (λ p sb. ok (sb ++ braces (rename p.name) (to_string p.type))) sql []
