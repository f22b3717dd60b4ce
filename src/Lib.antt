-- ===== src/Lib.antt =====
-- Parts of pggen that need no server. The first is the package internal/ch, the ClickHouse side, which
-- reads types, statements, parameters and insert targets. The second is the keyset pagination of
-- internal/parser/paginate.go, which makes of one query a variant for each sort key and direction. The
-- third is internal/casing, which makes Go identifiers of names. The fourth is internal/scanner, which
-- makes tokens of a query file, and the parser of query files, internal/parser/parser.go. The fifth is
-- the Go types of the generated code and its imports, of internal/codegen/golang. The sixth is the
-- generator of Go code there: what it makes of the queries, as texts.
--
-- The parts, and how they meet. A ClickHouse query file is split into statements
-- (internal/ch/statements.go). A statement is scanned for its parameters, `{name:Type}` (internal/ch/params.go), which skips the
-- same literals and comments as the splitter. The type of a parameter is read by the parser of types
-- (internal/ch/parse.go), whose result is printed, keyed and unwrapped by internal/ch/types.go, and
-- for which internal/ch/zero.go makes the literal that inference binds. An INSERT has its target read
-- by internal/ch/insert.go. In the pagination, a block of comments is read into a sort specification
-- and checked; the order by clause and the cursor predicate of each variant are written from it. The
-- generator takes the queries of each file with their inputs and outputs, resolves their types, parts
-- the variants of paginated queries from the rest, checks the names of the constants, merges the row
-- structs that queries share, and writes each part of a file as a text that a template puts in place.
--
-- The files. Prelude passes on the library's names and holds the shared helpers: Prelude/Text (texts
-- as lists of code points, and what the code calls of `strings` and `unicode`), Prelude/Decimal
-- (`strconv.Itoa` and `strconv.Atoi` on a 64-bit int), Prelude/Int, Prelude/Lists, Prelude/Tests,
-- Prelude/Result (a Go pair of a value and an error). Ch/Types is internal/ch/types.go, Ch/Parse and
-- Ch/Parse/Lexer are internal/ch/parse.go, Ch/Statements is internal/ch/statements.go, Ch/Params is
-- internal/ch/params.go, Ch/Insert is internal/ch/insert.go and Ch/Zero is internal/ch/zero.go. The
-- files below each of them hold its proofs; Ch/Tests holds runs. Paginate/Spec, Paginate/Check and
-- Paginate/Predicate are internal/parser/paginate.go with the sort specifications of
-- internal/ast/ast.go; Paginate/Meaning is the part of SQL that the predicate is written in, with its
-- value in three-valued logic, and Paginate/After the order of rows that it stands for. Casing is
-- internal/casing/casing.go and internal/casing/sanitize.go, over tables of the package unicode that
-- are parameters. Scanner is internal/scanner/scanner.go with the tokens of internal/token/token.go,
-- and Scanner/Tokens the calls of Scan on a file. Parser/Prepare is `prepareSQL`, with the
-- placeholders of internal/parser/interface.go, Parser/Pragmas is `parsePragmas` and the checks of its
-- values, Parser/Annotation is `annotationRegexp`, Parser/State is the state of the parser with its
-- errors and `next`, Parser/Query is `parsePggenArg` and `parseQuery`, and Parser/File is `parseFile`
-- up to its loop's end, all of internal/parser/parser.go, with the nodes of internal/ast/ast.go. GoType is
-- internal/codegen/golang/gotype/types.go, GoType/Opaque its `ParseOpaqueType` with
-- internal/codegen/golang/gotype/import_path.go, and GoType/Imports is
-- internal/codegen/golang/import_set.go. Resolve is internal/codegen/golang/ch_type_resolver.go with
-- the table of internal/codegen/golang/ch_known_types.go: it makes the Go types of GoType of the
-- ClickHouse types of Ch. Codegen has the records of internal/codegen/golang/templated_file.go and
-- internal/codegen; Codegen/Emit and Codegen/Emit/Structs are what templated_file.go and
-- declarer_row.go write of a query, Codegen/ClickHouse with its child Call is
-- internal/codegen/golang/ch_templated_file.go, and Codegen/Declarers with its child Declare the
-- declarers beside them. Of internal/codegen/golang/templater.go, Codegen/Names is
-- `validateSQLConstNames`, Codegen/Group and Codegen/Group/Structs `buildPaginateGroup` with what
-- templated_file.go writes of a group, Codegen/Shared `buildSharedRowDeclarers`, Codegen/ImportList
-- `addImport` and `removeImport`, Codegen/Templater the loops of `templateFile`, and Codegen/Files that function and `TemplateAll`.
--
-- The parser of query files passes its state along. The text ahead of the scanner is part of that
-- state, so `next0` scans a token; behind a token that ends the file nothing is ahead, since the code
-- calls Scan no more there. A position is one more than a count of characters. The panic `bailout`
-- and other panics are values of the type Stop. Slices of the source are checked, and out of range
-- they are the other panic; that of the message of a query without a semicolon may go up to the
-- capacity of the source, which is a parameter.
--
-- The correspondence. A function keeps the name of the Go function in snake case. An offset into the
-- source is the text from that offset on, so the state of the parser, its `pos`, is the text still
-- unread, and a function returns what it leaves; `sql[i:j]` is what a function returns beside that.
-- An error value is a constructor with what its message shows. A Go string is a list of code
-- points; the code reads ASCII bytes only, and `unicode.IsSpace` is asked of code points. An enum's
-- labels and values, two slices of one length in Go, are a list of pairs. `onText` and `onParam` of
-- scanSQL are functions on a state, which stands for what the callbacks of each caller write.
--
-- Fuel. The parser of types, the splitter, the scan of parameters, the skipping of blanks and the
-- list of columns recurse on fuel, one more than the length of the text, or its length; a round reads
-- at least one byte. The calls of Scan on a file, and each loop of the parser of query files, count on
-- fuel too, two more than what is ahead: a token takes a character at least. Where a run could want
-- for fuel, it has a value of its own (`out_of_fuel`, or `none` for the splitter and the tokens).
--
-- Not modelled: positions in messages beyond the unread text; `MustParse`, which panics on an error;
-- the placeholders of a paginated query, which regular expressions fill; the order in which Go walks a
-- map, for which the model takes the order of the assignments; the Scanner's reports of a NUL, of
-- invalid UTF-8 and of a byte order mark inside a file; the texts of the parser's messages;
-- what parseFile does behind its loop, where it replaces the paginated queries by their variants and
-- parses each, and so the file that ParseFileDialect returns; the Postgres side, the templates of the
-- code generator, the texts of RegisterTypes and of substituteIdentifiers, which are constants but for a list of names, and the
-- command line. In the generator, the resolver of types, the Caser's functions, GuessPackage,
-- strconv.Quote, strings.ToLower and strings.ToUpper are parameters.
pub mod Casing
pub mod Ch
pub mod Codegen
pub mod GoType
pub mod Paginate
pub mod Parser
pub mod Prelude
pub mod Resolve
pub mod Scanner
