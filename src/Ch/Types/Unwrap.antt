-- ===== src/Ch/Types/Unwrap.antt =====
-- `Unwrap`, `IsNullable` and `Payload` together.
use pggen.Prelude.{◌≡◌, refl, false}
use pggen.Ch.Types.{
  ChType, scalar, fixed_string, decimal, date_time, date_time64, low_cardinality, nullable, array,
  map, enum, tuple, unsupported, unwrap, is_nullable, payload,
}

-- A type around which nothing is left to take off.
abbrev pub IsPayload : ChType → Type 0
IsPayload (low_cardinality t) = ⊥
IsPayload (nullable t) = ⊥
IsPayload t = Unit

payload-IsPayload : (t : ChType) → IsPayload (payload t)
unfolding payload
payload-IsPayload (low_cardinality t) = payload-IsPayload t
payload-IsPayload (nullable t) = payload-IsPayload t
payload-IsPayload (scalar name) = tt
payload-IsPayload (fixed_string n) = tt
payload-IsPayload (decimal p s) = tt
payload-IsPayload (date_time tz) = tt
payload-IsPayload (date_time64 p tz) = tt
payload-IsPayload (array t) = tt
payload-IsPayload (map k v) = tt
payload-IsPayload (enum bits items) = tt
payload-IsPayload (tuple es) = tt
payload-IsPayload (unsupported raw) = tt

payload-unwrap : (t : ChType) → payload (unwrap t) ≡ payload t
unfolding payload unwrap
payload-unwrap (low_cardinality t) = payload-unwrap t
payload-unwrap (nullable t) = refl
payload-unwrap (scalar name) = refl
payload-unwrap (fixed_string n) = refl
payload-unwrap (decimal p s) = refl
payload-unwrap (date_time tz) = refl
payload-unwrap (date_time64 p tz) = refl
payload-unwrap (array t) = refl
payload-unwrap (map k v) = refl
payload-unwrap (enum bits items) = refl
payload-unwrap (tuple es) = refl
payload-unwrap (unsupported raw) = refl

payload_not_nullable : (t : ChType) → is_nullable t ≡ false → payload t ≡ unwrap t
unfolding payload unwrap is_nullable
payload_not_nullable (low_cardinality t) h = payload_not_nullable t h
payload_not_nullable (nullable t) h = cc
payload_not_nullable (scalar name) h = refl
payload_not_nullable (fixed_string n) h = refl
payload_not_nullable (decimal p s) h = refl
payload_not_nullable (date_time tz) h = refl
payload_not_nullable (date_time64 p tz) h = refl
payload_not_nullable (array t) h = refl
payload_not_nullable (map k v) h = refl
payload_not_nullable (enum bits items) h = refl
payload_not_nullable (tuple es) h = refl
payload_not_nullable (unsupported raw) h = refl

-- Payload leaves neither Nullable nor LowCardinality around a type, sees through what Unwrap
-- takes off, and is Unwrap for a type that is not nullable.
pub payload_lem :
    (t : ChType)
    → IsPayload (payload t)
      × (payload (unwrap t) ≡ payload t)
      × (is_nullable t ≡ false → payload t ≡ unwrap t)
payload_lem t = (payload-IsPayload t, payload-unwrap t, payload_not_nullable t)
