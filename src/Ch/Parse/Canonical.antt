-- ===== src/Ch/Parse/Canonical.antt =====
-- The types that the parser builds, described without it.
use pggen.Prelude.{ℕ, ◌≡◌, ◌≢◌, ◌⊎◌, List, [], All}
use pggen.Prelude.Int.{ℤ, pos, negsuc, ◌≤ℤ◌}
use pggen.Prelude.Decimal.{IsInt}
use pggen.Prelude.Text.{Text, codes}
use pggen.Ch.Types.{ChType, Elems}
use pggen.Ch.Parse.Ensures.{IsName}

-- A value of the enum's stored type: an int8, or an int16.
abbrev pub FitsEnum : ℕ → ℤ → Type 0
FitsEnum bits v =
    (bits ≡ 8) × (negsuc 127 ≤ℤ v) × (v ≤ℤ pos 127)
    ⊎ (bits ≡ 16) × (negsuc 32767 ≤ℤ v) × (v ≤ℤ pos 32767)

-- An item of an enum: a label of any bytes, and a value that is an int and fits.
abbrev pub IsItem : ℕ → Text × ℤ → Type 0
IsItem bits (label, v) = IsInt v × FitsEnum bits v

mutual
  pub data IsCanonical : ChType → Type 0 where
    scalar :
        {name : Text}
        → IsName name
        → name ≢ codes "DateTime"
        → name ≢ codes "DateTime64"
        → IsCanonical (ChType.scalar name)
    fixed_string : {n : ℤ} → IsInt n → IsCanonical (ChType.fixed_string n)
    decimal : {p s : ℤ} → IsInt p → IsInt s → IsCanonical (ChType.decimal p s)
    date_time : (zone : Text) → IsCanonical (ChType.date_time zone)
    date_time64 : {p : ℤ} (zone : Text) → IsInt p → IsCanonical (ChType.date_time64 p zone)
    nullable : {t : ChType} → IsCanonical t → IsCanonical (ChType.nullable t)
    low_cardinality : {t : ChType} → IsCanonical t → IsCanonical (ChType.low_cardinality t)
    array : {t : ChType} → IsCanonical t → IsCanonical (ChType.array t)
    map : {k v : ChType} → IsCanonical k → IsCanonical v → IsCanonical (ChType.map k v)
    enum :
        {bits : ℕ} {items : List (Text × ℤ)}
        → items ≢ []
        → All (IsItem bits) items
        → IsCanonical (ChType.enum bits items)
    tuple : {es : Elems} → es ≢ Elems.no_elems → AreCanonical es → IsCanonical (ChType.tuple es)
    unsupported : (raw : Text) → IsCanonical (ChType.unsupported raw)

  pub data AreCanonical : Elems → Type 0 where
    no_elems : AreCanonical Elems.no_elems
    elem :
        {name : Text} {t : ChType} {es : Elems}
        → (name ≡ []) ⊎ IsName name
        → IsCanonical t
        → AreCanonical es
        → AreCanonical (Elems.elem name t es)
