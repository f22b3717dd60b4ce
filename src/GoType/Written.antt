-- ===== src/GoType/Written.antt =====
-- A Go type that is written down is read back by `ParseOpaqueType`.
use pggen.Prelude.{
  ℕ, ◌≡◌, refl, ◌∙◌, ◌≢◌, Bool, true, false, not, ◌&&◌, ◌||◌, [], ◌∷◌, ◌++◌, Option, none, some,
  arith, ◌==◌, if◌then◌else◌, All,
}
use pggen.Prelude.Result.{ok}
use pggen.Prelude.Text.{Text, codes, cut}
use pggen.GoType.{GoType, array_type, import_type, opaque_type, pointer_type}
use pggen.GoType.Opaque.{
  SqlType, array_named, opened, last_dot, shorten_argument, is_import_path, named_type,
  pointed_type, slice_type, parse_opaque_type,
}

-- The characters of a package's path, and of a name, that mean nothing to the parser.
abbrev pub is_path_char : ℕ → Bool
is_path_char c = not (c == b'[' || c == b']' || c == b'*')

abbrev pub is_plain_char : ℕ → Bool
is_plain_char c = not (c == b'.') && is_path_char c

-- A named type: an optional package, and a name.
abbrev pub written_name : Option Text → Text → Text
written_name none name = name
written_name (some pkg) name = pkg ++ b'.' ∷ name

abbrev pub built_name : Option Text → Text → GoType
built_name none name = opaque_type name
built_name (some pkg) name = import_type pkg (opaque_type name)

-- A pointer, and a slice, of a type.
abbrev pub written : Bool → Bool → Text → Text
written slice pointer name =
    (if slice then codes "[]" else []) ++ ((if pointer then codes "*" else []) ++ name)

abbrev pub built : Bool → Bool → Text → GoType → GoType
built slice pointer sql t =
    let t' = if pointer then pointer_type t else t in if slice then array_type sql t' else t'

abbrev pub IsPackage : Option Text → Type 0
IsPackage none = Unit
IsPackage (some pkg) = All (λ c. is_path_char c ≡ true) pkg × (is_import_path pkg ≡ true)

last_dot-plain : (s : Text) → All (λ c. is_plain_char c ≡ true) s → last_dot (opened 0) s ≡ none
unfolding last_dot
last_dot-plain [] h = refl
last_dot-plain (c ∷ s) h =
    let o : (c == b'[') ≡ false = ground (arith, h.0) in
    let e : (c == b']') ≡ false = ground (arith, h.0) in
    let dot : (c == b'.') ≡ false = ground (arith, h.0) in rw (o, e, last_dot-plain s h.1, dot) refl

last_dot-path :
    (pkg name : Text)
    → All (λ c. is_path_char c ≡ true) pkg
    → All (λ c. is_plain_char c ≡ true) name
    → last_dot (opened 0) (pkg ++ b'.' ∷ name) ≡ some (pkg, name)
unfolding last_dot
last_dot-path [] name h hn = rw (last_dot-plain name hn, last_dot) refl
last_dot-path (c ∷ pkg) name h hn =
    let o : (c == b'[') ≡ false = ground (arith, h.0) in
    let e : (c == b']') ≡ false = ground (arith, h.0) in
    rw (o, e, last_dot-path pkg name h.1 hn) refl

cut-plain : (s : Text) → All (λ c. is_plain_char c ≡ true) s → cut s b'[' ≡ none
unfolding cut
cut-plain [] h = refl
cut-plain (c ∷ s) h =
    let o : (c == b'[') ≡ false = ground (arith, h.0) in rw (o, cut-plain s h.1) refl

shorten-plain : (s : Text) → All (λ c. is_plain_char c ≡ true) s → shorten_argument s ≡ ok s
unfolding shorten_argument
shorten-plain s h = rw (cut-plain s h, shorten_argument) refl

named_type-written :
    (whole : Text) (pkg : Option Text) (name : Text)
    → IsPackage pkg
    → All (λ c. is_plain_char c ≡ true) name
    → named_type whole (written_name pkg name) ≡ ok (built_name pkg name)
unfolding named_type
named_type-written whole none name hp hn =
    rw (last_dot-plain name hn, shorten-plain name hn, named_type) refl
named_type-written whole (some pkg) name hp hn =
    rw (last_dot-path pkg name hp.0 hn, shorten-plain name hn, hp.1, named_type) refl

-- A text that begins neither a pointer nor a slice.
abbrev Unstarred : Text → Type 0
Unstarred [] = ⊥
Unstarred (c ∷ s) = ((c == b'*') ≡ false) × ((c == b'[') ≡ false)

written_name-Unstarred :
    (pkg : Option Text) (name : Text)
    → IsPackage pkg
    → All (λ c. is_plain_char c ≡ true) name
    → name ≢ []
    → Unstarred (written_name pkg name)
written_name-Unstarred none [] hp hn ne = absurd (ne refl)
written_name-Unstarred none (c ∷ s) hp hn ne = (ground (arith, hn.0), ground (arith, hn.0))
written_name-Unstarred (some []) name hp hn ne = (refl, refl)
written_name-Unstarred (some (c ∷ p)) name hp hn ne =
    (ground (arith, hp.0.0), ground (arith, hp.0.0))

pointed_type-written :
    (whole : Text) (pointer : Bool) (s : Text) {t : GoType}
    → Unstarred s
    → named_type whole s ≡ ok t
    → pointed_type whole ((if pointer then codes "*" else []) ++ s)
      ≡ ok (if pointer then pointer_type t else t)
unfolding pointed_type
pointed_type-written whole true s hs e = rw (e, pointed_type) refl
pointed_type-written whole false [] hs e = absurd hs
pointed_type-written whole false (c ∷ s) hs e = rw hs.0 e

unbracketed :
    (c : ℕ) (s : Text) (sql_type : SqlType)
    → (c == b'[') ≡ false
    → parse_opaque_type (c ∷ s) sql_type ≡ pointed_type (c ∷ s) (c ∷ s)
unfolding parse_opaque_type
unbracketed c [] sql_type e = rw e refl
unbracketed c (d ∷ s) sql_type e = rw e refl

bracketed :
    (s : Text) (sql_type : SqlType) {t : GoType}
    → pointed_type (b'[' ∷ b']' ∷ s) s ≡ ok t
    → parse_opaque_type (b'[' ∷ b']' ∷ s) sql_type ≡ slice_type (b'[' ∷ b']' ∷ s) sql_type t
unfolding parse_opaque_type
bracketed s sql_type e = rw (e, parse_opaque_type) refl

slice_type-array :
    (whole sql : Text) (t : GoType) → slice_type whole (array_named sql) t ≡ ok (array_type sql t)
unfolding slice_type
slice_type-array whole sql t = refl

-- A Go type that is written as a slice or not, as a pointer or not, with an import path or
-- without, is parsed to what it stands for, where the database type is an array, the name is
-- not empty and neither holds a character that means something else to the parser.
pub parse_opaque_type-written :
    (slice pointer : Bool) (pkg : Option Text) (name sql : Text)
    → IsPackage pkg
    → All (λ c. is_plain_char c ≡ true) name
    → name ≢ []
    → parse_opaque_type (written slice pointer (written_name pkg name)) (array_named sql)
      ≡ ok (built slice pointer sql (built_name pkg name))
parse_opaque_type-written true pointer pkg name sql hp hn ne =
    let s = (if pointer then codes "*" else []) ++ written_name pkg name in
    bracketed s (array_named sql) (
      pointed_type-written (b'[' ∷ b']' ∷ s) pointer (written_name pkg name)
        (written_name-Unstarred pkg name hp hn ne)
        (named_type-written (b'[' ∷ b']' ∷ s) pkg name hp hn))
    ∙ slice_type-array (b'[' ∷ b']' ∷ s) sql
        (if pointer then pointer_type (built_name pkg name) else built_name pkg name)
parse_opaque_type-written false true pkg name sql hp hn ne =
    unbracketed b'*' (written_name pkg name) (array_named sql) refl
    ∙ pointed_type-written (b'*' ∷ written_name pkg name) true (written_name pkg name)
        (written_name-Unstarred pkg name hp hn ne)
        (named_type-written (b'*' ∷ written_name pkg name) pkg name hp hn)
parse_opaque_type-written false false pkg name sql hp hn ne =
    plain (written_name pkg name) (written_name-Unstarred pkg name hp hn ne) (
      pointed_type-written (written_name pkg name) false (written_name pkg name)
        (written_name-Unstarred pkg name hp hn ne)
        (named_type-written (written_name pkg name) pkg name hp hn))
  where
    plain :
        (s : Text) {t : GoType}
        → Unstarred s
        → pointed_type s s ≡ ok t
        → parse_opaque_type s (array_named sql) ≡ ok t
    plain [] h e = absurd h
    plain (c ∷ s) h e = unbracketed c s (array_named sql) h.1 ∙ e
