-- ===== src/Sharding/BucketMap.antt =====
-- The map from buckets to shards, `buildBucketMap` of src/sharding/shard-key.ts: round robin, and
-- then the ranges of SHARD_BUCKET_MAP, "0-31:0,32-63:1". A fragment that the source refuses by
-- throwing is an error value here.
pub mod Ownership
mod Tests
use booking_hotel.Prelude.{
  ℕ, zero, suc, ◌+◌, ◌-◌, ◌%◌, Bool, true, false, ◌&&◌, ◌||◌, Option, none, some, List, [], ◌∷◌,
  map, JsString, ltb, leb, ◌==◌, if◌then◌else◌, set, range_from, is_digit, digits_from, trim, split,
}
use booking_hotel.Sharding.Key.{buckets}

-- A fragment "from-to:shard".
pub record Fragment : Type 0 where
  pub from : ℕ
  pub to : ℕ
  pub shard : ℕ

pub data MapError : Type 0 where
  malformed : JsString → MapError
  out_of_bounds : JsString → MapError

pub data BuildResult : Type 0 where
  built : List ℕ → BuildResult
  refused : MapError → BuildResult

-- A run of digits, at least one, and what stands behind it.
unfoldable pub number_at : JsString → Option (ℕ × JsString)
unfolding digits_from
number_at [] = none
number_at (c ∷ s) = if is_digit c then some (digits_from 0 (c ∷ s)) else none

-- The tail `:(\d+)$` of the regular expression.
unfoldable pub shard_at : ℕ → ℕ → JsString → Option Fragment
unfolding number_at
shard_at from to [] = none
shard_at from to (c ∷ s) =
    if c == b':'
    then elim (number_at s) [
      | some (shard, []) ↦ some (record { from = from; to = to; shard = shard })
      | _ ↦ none
    ]
    else none

-- `/^(\d+)(?:-(\d+))?:(\d+)$/`, with `to` defaulting to `from`.
unfoldable pub rest_at : ℕ → JsString → Option Fragment
unfolding shard_at
rest_at from [] = none
rest_at from (c ∷ s) =
    if c == b'-'
    then elim (number_at s) [ some (to, r) ↦ shard_at from to r | none ↦ none ]
    else shard_at from from (c ∷ s)

unfoldable pub match_fragment : JsString → Option Fragment
unfolding rest_at
match_fragment s = elim (number_at s) [ some (from, r) ↦ rest_at from r | none ↦ none ]

unfoldable pub in_bounds : ℕ → Fragment → Bool
in_bounds shard_count f = leb f.from f.to && ltb f.to buckets && ltb f.shard shard_count

-- `for (bucket = from; bucket <= to; bucket++) map[bucket] = shard`, on the rounds left.
unfoldable pub fill : ℕ → ℕ → ℕ → List ℕ → List ℕ
fill zero from shard m = m
fill (suc rounds) from shard m = fill rounds (suc from) shard (set m from shard)

unfoldable pub apply_fragment : Fragment → List ℕ → List ℕ
unfolding fill
apply_fragment f m = fill (suc f.to - f.from) f.from f.shard m

-- The loop over the fragments.
unfoldable pub apply_parts : ℕ → List JsString → List ℕ → BuildResult
apply_parts shard_count [] m = built m
apply_parts shard_count (part ∷ parts) m = elim (match_fragment (trim part)) [
  | none ↦ refused (malformed part)
  | some f ↦ elim (in_bounds shard_count f) [
    | true ↦ apply_parts shard_count parts (apply_fragment f m)
    | false ↦ refused (out_of_bounds part)
  ]
]

-- `Array.from({ length: BUCKETS }, (_, bucket) => bucket % shardCount)`
unfoldable pub round_robin : ℕ → List ℕ
round_robin shard_count = map (λ bucket. bucket % shard_count) (range_from 0 buckets)

-- A variable that is not set is the empty text.
unfoldable pub build_bucket_map : ℕ → JsString → BuildResult
build_bucket_map shard_count spec = elim (trim spec) [
  | [] ↦ built (round_robin shard_count)
  | _ ∷ _ ↦ apply_parts shard_count (split b',' spec) (round_robin shard_count)
]
