-- ===== src/Parser/Pragmas.antt =====
-- `parsePragmas` of internal/parser/parser.go and the checks of its values, with the pragmas and the
-- result kinds of internal/ast/ast.go.
pub mod Valid
pub mod Proto
pub mod Sound
use pggen.Prelude.{
  ℕ, Bool, true, false, not, ◌&&◌, ◌||◌, List, [], ◌∷◌, ◌++◌, Option, none, some, ◌==◌, leb,
  if◌then◌else◌,
}
use pggen.Prelude.Result.{Result, ok, err, ◌>>=◌}
use pggen.Prelude.Text.{Text, codes, eq, is_empty, is_space}

pub record Pragmas : Type 0 where
  pub protobuf_type : Text
  pub output_type : Text
  pub paginate : Text
  pub sql_const : Text

abbrev pub no_pragmas : Pragmas
no_pragmas = record { protobuf_type = []; output_type = []; paginate = []; sql_const = [] }

-- The errors, with what their messages name.
pub data PragmaError : Type 0 where
  not_a_pair : Text → PragmaError
  proto_bad_start proto_bad_dot proto_bad_char : Text → PragmaError
  ident_empty ident_bad_start ident_bad_char : Text → PragmaError
  empty_paginate : PragmaError
  unsupported_key : Text → PragmaError
  sql_with_paginate : Text → Text → PragmaError

abbrev pub is_ascii_letter : ℕ → Bool
is_ascii_letter v = (leb b'a' v && leb v b'z') || (leb b'A' v && leb v b'Z')

abbrev pub is_ascii_digit : ℕ → Bool
is_ascii_digit v = leb b'0' v && leb v b'9'

-- The loop of `validateProtoMsgType`, over the characters left; `val` is the whole.
unfoldable pub proto_loop : Text → Bool → Text → Result PragmaError Text
proto_loop val is_start [] = ok val
proto_loop val is_start (v ∷ rest) =
    let letter = proto_loop val false rest in
    let same = proto_loop val is_start rest in
    let dot = proto_loop val true rest in
    if is_ascii_letter v
    then letter
    else if is_ascii_digit v || v == b'_'
    then (if is_start then err (proto_bad_start val) else same)
    else if v == b'.'
    then (if is_start || is_empty rest then err (proto_bad_dot val) else dot)
    else err (proto_bad_char val)

-- `validateProtoMsgType(val)`.
unfoldable pub validate_proto_msg_type : Text → Result PragmaError Text
unfolding proto_loop
validate_proto_msg_type val = proto_loop val true val

-- The rounds of `validateGoExportedIdent` behind the first.
unfoldable pub ident_rest : Text → Text → Result PragmaError (Unit {0})
ident_rest val [] = ok tt
ident_rest val (r ∷ rest) =
    let later = ident_rest val rest in
    if not (is_ascii_letter r || is_ascii_digit r || r == b'_')
    then err (ident_bad_char val)
    else later

-- `validateGoExportedIdent(val, what)`; `what` shows in the messages only.
unfoldable pub validate_go_exported_ident : Text → Result PragmaError (Unit {0})
unfolding ident_rest
validate_go_exported_ident [] = err (ident_empty [])
validate_go_exported_ident (r ∷ rest) =
    if not (leb b'A' r && leb r b'Z')
    then err (ident_bad_start (r ∷ rest))
    else ident_rest (r ∷ rest) rest

-- `strings.Fields(s)`; `word` is the field that is being read.
unfoldable pub fields_from : Text → Text → List Text
unfolding is_space
fields_from word [] = if is_empty word then [] else word ∷ []
fields_from word (c ∷ s) =
    let inside = fields_from (word ++ c ∷ []) s in
    let between = fields_from [] s in
    if is_space c then (if is_empty word then between else word ∷ between) else inside

-- `strings.Split(s, "=")`; `part` is the part that is being read.
unfoldable pub split_from : Text → Text → List Text
split_from part [] = part ∷ []
split_from part (c ∷ s) =
    let inside = split_from (part ++ c ∷ []) s in
    let next = split_from [] s in if c == b'=' then part ∷ next else inside

-- The switch on the key of a pragma.
unfoldable pub set_pragma : Text → Text → Pragmas → Result PragmaError Pragmas
unfolding eq validate_proto_msg_type validate_go_exported_ident
set_pragma key val qp =
    if eq key (codes "proto-type")
    then (validate_proto_msg_type val >>= λ p. ok (record qp { protobuf_type = p }))
    else if eq key (codes "output")
    then (validate_go_exported_ident val >>= λ _. ok (record qp { output_type = val }))
    else if eq key (codes "paginate")
    then (if is_empty val then err empty_paginate else ok (record qp { paginate = val }))
    else if eq key (codes "sql")
    then (validate_go_exported_ident val >>= λ _. ok (record qp { sql_const = val }))
    else err (unsupported_key key)

-- One round of the loop of `parsePragmas`, on the parts of a field.
unfoldable pub read_pragma : Text → List Text → Pragmas → Result PragmaError Pragmas
unfolding set_pragma
read_pragma s (key ∷ val ∷ []) qp = set_pragma key val qp
read_pragma s _ qp = err (not_a_pair s)

unfoldable pub read_pragmas : List Text → Pragmas → Result PragmaError Pragmas
unfolding read_pragma split_from
read_pragmas [] qp = ok qp
read_pragmas (s ∷ ss) qp = read_pragma s (split_from [] s) qp >>= λ qp'. read_pragmas ss qp'

-- `parsePragmas(allPragmas)`. A text without fields leaves the pragmas empty, as the early return does.
unfoldable pub parse_pragmas : Text → Result PragmaError Pragmas
unfolding read_pragmas fields_from
parse_pragmas all = read_pragmas (fields_from [] all) no_pragmas >>= λ qp.
    if not (is_empty qp.paginate) && not (is_empty qp.sql_const)
    then err (sql_with_paginate qp.sql_const qp.paginate)
    else ok qp
