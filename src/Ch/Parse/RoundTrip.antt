-- ===== src/Ch/Parse/RoundTrip.antt =====
-- `Parse` reads back what `String` writes, so that the spelling of a type is its identity.
use pggen.Prelude.{
  suc, ◌≡◌, refl, sym, ◌∙◌, ◌≢◌, Bool, true, ◌&&◌, [], ◌++◌, append-nil, arith, length,
}
use pggen.Prelude.Result.{ok}
use pggen.Prelude.Text.{Text}
use pggen.Ch.Types.{ChType, Elems, no_elems, to_string, elems_string, key}
use pggen.Ch.Parse.Lexer.{skip_space}
use pggen.Ch.Parse.Canonical.{IsCanonical, AreCanonical}
use pggen.Ch.Parse.Sound.{parse-IsCanonical}
use pggen.Ch.Parse.Supported.{supported, all_supported, to_string-Spelled}
use pggen.Ch.Parse.Trips.{Trip, nullable-Trip, low_cardinality-Trip, array-Trip, skip_space-Spelled}
use pggen.Ch.Parse.LeafTrips.{
  scalar-Trip, fixed_string-Trip, decimal-Trip, date_time-Trip, date_time64-Trip,
}
use pggen.Ch.Parse.CompositeTrips.{map-Trip, enum-Trip}
use pggen.Ch.Parse.TupleTrip.{
  ElemsTrip, last-ElemsTrip, more-ElemsTrip, tuple-Trip, skip_space-elems_string,
}
use pggen.Ch.Parse.{parse}

both : {a b : Bool} → (a && b) ≡ true → (a ≡ true) × (b ≡ true)
both h = (ground arith, ground arith)

elems_start :
    {es : Elems}
    → AreCanonical es
    → all_supported es ≡ true
    → es ≢ no_elems
    → (rest : Text) → skip_space (elems_string true es ++ rest) ≡ elems_string true es ++ rest
elems_start AreCanonical.no_elems h ne rest = absurd (ne refl)
elems_start (AreCanonical.elem {name} {t} {es} named c cs) h ne rest =
    skip_space-elems_string name t es rest named (to_string-Spelled c (both h).0)

mutual
  type_Trip : {t : ChType} → IsCanonical t → supported t ≡ true → Trip t
  type_Trip (IsCanonical.scalar named n m) h = scalar-Trip named n m
  type_Trip (IsCanonical.fixed_string {n} i) h = fixed_string-Trip n i
  type_Trip (IsCanonical.decimal {p} {s} i j) h = decimal-Trip p s i j
  type_Trip (IsCanonical.date_time zone) h = date_time-Trip zone
  type_Trip (IsCanonical.date_time64 {p} zone i) h = date_time64-Trip p zone i
  type_Trip (IsCanonical.nullable {t} c) h = nullable-Trip t (to_string-Spelled c h) (type_Trip c h)
  type_Trip (IsCanonical.low_cardinality {t} c) h =
      low_cardinality-Trip t (to_string-Spelled c h) (type_Trip c h)
  type_Trip (IsCanonical.array {t} c) h = array-Trip t (to_string-Spelled c h) (type_Trip c h)
  type_Trip (IsCanonical.map {k} {v} c d) h =
      let (hk, hv) = both h in
      map-Trip k v (to_string-Spelled c hk) (to_string-Spelled d hv) (type_Trip c hk)
        (type_Trip d hv)
  type_Trip (IsCanonical.enum {bits} {items} ne hs) h = enum-Trip bits items ne hs
  type_Trip (IsCanonical.tuple {es} ne cs) h =
      tuple-Trip es ne (elems_start cs h ne) (elems_Trip cs h)
  type_Trip (IsCanonical.unsupported raw) h = cc

  elems_Trip : {es : Elems} → AreCanonical es → all_supported es ≡ true → ElemsTrip es
  elems_Trip AreCanonical.no_elems h = λ f g s rest lf lg ne. absurd (ne refl)
  elems_Trip (AreCanonical.elem {name} {t} named c AreCanonical.no_elems) h =
      let (ht, _) = both h in last-ElemsTrip name t named (to_string-Spelled c ht) (type_Trip c ht)
  elems_Trip
        (AreCanonical.elem {name} {t} named c
          (AreCanonical.elem {name = name'} {t = t'} {es = es'} named' c' cs))
        h =
      let (ht, hs) = both h in
      more-ElemsTrip name t name' t' es' named named' (to_string-Spelled c ht)
        (to_string-Spelled c' (both hs).0) (type_Trip c ht)
        (elems_Trip (AreCanonical.elem named' c' cs) hs)

-- The canonical spelling of a canonical type with no unsupported part is parsed to that type.
pub parse-to_string : {t : ChType} → IsCanonical t → supported t ≡ true → parse (to_string t) ≡ ok t
unfolding parse
parse-to_string {t} c h =
    let text = to_string t in
    let start = skip_space-Spelled [] (to_string-Spelled c h) in
    rw
      (type_Trip c h (suc (length text)) text [] (omega arith) refl
        (rw append-nil at start ∙ sym (append-nil text)))
      (unfold skip_space in refl)

-- Parsing is stable: if a name parses to a type with no unsupported part, the canonical
-- spelling of that type parses to the same type.
pub parse-to_string-parse :
    (name : Text) {t : ChType}
    → parse name ≡ ok t
    → supported t ≡ true
    → parse (to_string t) ≡ parse name
parse-to_string-parse name e h = parse-to_string (parse-IsCanonical name e) h ∙ sym e

-- The key of a type is its identity: two parsed types with no unsupported part and with one
-- key are the same type.
pub key-injective :
    (name name' : Text) {t u : ChType}
    → parse name ≡ ok t
    → parse name' ≡ ok u
    → supported t ≡ true
    → supported u ≡ true
    → key t ≡ key u
    → t ≡ u
unfolding key
key-injective name name' p q h h' e =
    cc
      (parse-to_string (parse-IsCanonical name p) h, parse-to_string (parse-IsCanonical name' q) h')
