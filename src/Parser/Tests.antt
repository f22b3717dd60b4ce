-- ===== src/Parser/Tests.antt =====
-- Runs of the parser's functions, and the theorems about them at concrete inputs.
use pggen.Prelude.{ℕ, Option, none, Bool, false, ◌≡◌, ◌↔◌, All, ◌⊎◌, refl, List, [], ◌∷◌, some}
use pggen.Prelude.Result.{Result, ok, err}
use pggen.Prelude.Decimal.{itoa_ℕ}
use pggen.Prelude.Text.{Text, codes, eq, is_space, has_prefix, cut_prefix}
use pggen.Scanner.{
  line_comment_body, block_comment_body, quoted_body, tag_body, dollar_contents, fragment_body,
}
use pggen.Parser.State.{LineComment, wants_string, State, Stop, SyntaxError, panicked}
use pggen.Parser.Annotation.{one}
use pggen.Parser.Query.{Query, source_query, bad_query}
use pggen.Parser.File.{parse_source_queries}
use pggen.Parser.Prepare.{
  ArgPos, postgres_placeholder, prepare_sql, number_args, order_of, unnumbered,
}
use pggen.Parser.Splice.{Part, kept, call, args_from, prepare_sql-render}
use pggen.Parser.Bounds.{Numbers, number_args_bounds}
use pggen.Parser.Pragmas.{
  Pragmas, sql_with_paginate, parse_pragmas, read_pragmas, read_pragma, set_pragma, split_from,
  fields_from, validate_go_exported_ident, validate_proto_msg_type, ident_rest, proto_loop,
}
use pggen.Parser.Pragmas.Valid.{IsExported, validate_go_exported_ident_iff}
use pggen.Parser.Pragmas.Proto.{IsSegments, validate_proto_msg_type_iff}
use pggen.Parser.Pragmas.Sound.{IsPragmas, parse_pragmas-IsPragmas}

abbrev query_parts : List Part
query_parts =
    kept (codes "SELECT ")
    ∷ call (codes "pggen.arg('b')") (codes "b")
    ∷ kept (codes ", ")
    ∷ call (codes "pggen.arg ('a')") (codes "a")
    ∷ kept (codes ", ")
    ∷ call (codes "pggen.arg('b')") (codes "b")
    ∷ kept (codes ";")
    ∷ []

abbrev query_text : Text
query_text = codes "SELECT pggen.arg('b'), pggen.arg ('a'), pggen.arg('b');"

prepare_sql-render_example :
    prepare_sql postgres_placeholder query_text (args_from 0 query_parts)
    ≡ some (codes "SELECT $1, $2, $1;", codes "b" ∷ codes "a" ∷ [])
unfolding postgres_placeholder itoa_ℕ eq
prepare_sql-render_example = prepare_sql-render postgres_placeholder query_parts

abbrev call_args : List ArgPos
call_args = args_from 0 query_parts

number_args_bounds_example :
    All
      (λ arg.
        (k : ℕ) × (order_of arg.name (number_args unnumbered call_args).orders ≡ some k)
        × Numbers (number_args unnumbered call_args).params arg.name k)
      call_args
number_args_bounds_example = number_args_bounds call_args

validate_go_exported_ident_iff_example :
    (validate_go_exported_ident (codes "Author_1") ≡ ok tt) ↔ IsExported (codes "Author_1")
validate_go_exported_ident_iff_example = validate_go_exported_ident_iff (codes "Author_1")

validate_proto_msg_type_iff_example :
    (validate_proto_msg_type (codes "foo.Msg_1") ≡ ok (codes "foo.Msg_1"))
    ↔ ((codes "foo.Msg_1" ≡ []) ⊎ IsSegments (codes "foo.Msg_1"))
validate_proto_msg_type_iff_example = validate_proto_msg_type_iff (codes "foo.Msg_1")

abbrev some_pragmas : Pragmas
some_pragmas = record {
  protobuf_type = codes "foo.Msg";
  output_type = codes "Author";
  paginate = [];
  sql_const = codes "AuthorSQL";
}

parse_pragmas-some_pragmas :
    parse_pragmas (codes "proto-type=foo.Msg  output=Author sql=AuthorSQL") ≡ ok some_pragmas
unfolding parse_pragmas read_pragmas read_pragma set_pragma split_from fields_from
    validate_go_exported_ident validate_proto_msg_type ident_rest proto_loop eq is_space
parse_pragmas-some_pragmas = refl

parse_pragmas-paginated :
    parse_pragmas (codes "paginate=p sql=S") ≡ err (sql_with_paginate (codes "S") (codes "p"))
unfolding parse_pragmas read_pragmas read_pragma set_pragma split_from fields_from
    validate_go_exported_ident ident_rest eq is_space
parse_pragmas-paginated = refl

-- The empty name of a message is let through.
parse_pragmas-no_proto_type :
    parse_pragmas (codes "proto-type=")
    ≡ ok (record some_pragmas { protobuf_type = []; output_type = []; sql_const = [] })
unfolding parse_pragmas read_pragmas read_pragma set_pragma split_from fields_from
    validate_proto_msg_type proto_loop eq is_space
parse_pragmas-no_proto_type = refl

parse_pragmas-IsPragmas_example :
    IsPragmas some_pragmas × ((some_pragmas.paginate ≡ []) ⊎ (some_pragmas.sql_const ≡ []))
parse_pragmas-IsPragmas_example =
    parse_pragmas-IsPragmas (codes "proto-type=foo.Msg  output=Author sql=AuthorSQL")
      parse_pragmas-some_pragmas

-- No character beyond ASCII is a letter.
abbrev ascii : ℕ → Bool
ascii c = false

abbrev query_file : Text
query_file =
    codes "-- File.\n\n-- Finds it.\n-- name: Find :one output=Author\nSELECT pggen.arg('x') + 1;\n"

abbrev find_doc : List LineComment
find_doc =
    record { start = 11; text = codes "-- Finds it." }
    ∷ record { start = 24; text = codes "-- name: Find :one output=Author" }
    ∷ []

abbrev parsed_queries : List Query
parsed_queries =
    source_query (record {
      name = codes "Find";
      doc = find_doc;
      start = 57;
      source_sql = codes "SELECT pggen.arg('x') + 1;";
      prepared_sql = codes "SELECT $1 + 1;";
      param_names = codes "x" ∷ [];
      result_kind = one;
      pragmas = record {
        protobuf_type = [];
        output_type = codes "Author";
        paginate = [];
        sql_const = [];
      };
      semi = 82;
    })
    ∷ []

-- The queries and the errors, where the loop comes to its end.
abbrev queries_of : Result Stop (List Query × State) → Option (List Query × List SyntaxError)
queries_of (ok (queries, st)) = some (queries, st.errors)
queries_of (err e) = none

parse_source_queries-query_file :
    queries_of (parse_source_queries ascii query_file 96 postgres_placeholder)
    ≡ some (parsed_queries, [])
unfolding parse_source_queries postgres_placeholder itoa_ℕ eq is_space line_comment_body
    block_comment_body quoted_body tag_body dollar_contents fragment_body ident_rest has_prefix
    cut_prefix
parse_source_queries-query_file = refl

-- A call that names nothing spoils the query, whose text up to the next token is skipped, and the parser
-- goes on there.
parse_source_queries-bad_call :
    queries_of (
      parse_source_queries ascii
        (codes "-- name: A :one\nSELECT pggen.arg(;")
        64
        postgres_placeholder)
    ≡ some
        (bad_query 17 34 ∷ bad_query 34 35 ∷ [], record { line = 2; message = wants_string } ∷ [])
unfolding parse_source_queries postgres_placeholder itoa_ℕ eq is_space line_comment_body
    block_comment_body quoted_body tag_body dollar_contents fragment_body ident_rest has_prefix
    cut_prefix
parse_source_queries-bad_call = refl

-- A query without a semicolon, in a source whose capacity is its length: the slice of the message
-- is out of range.
parse_source_queries-unterminated :
    parse_source_queries ascii (codes "SELECT 1") 8 postgres_placeholder ≡ err panicked
unfolding parse_source_queries postgres_placeholder itoa_ℕ eq is_space line_comment_body
    block_comment_body quoted_body tag_body dollar_contents fragment_body ident_rest has_prefix
    cut_prefix
parse_source_queries-unterminated = refl
