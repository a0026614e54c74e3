-- ===== src/Sharding/BucketMap/Tests.antt =====
-- Runs of `buildBucketMap`.
use booking_hotel.Prelude.{
  ◌≡◌, refl, js, trim, split, some, none, ℕ, List, length, All, get_or, ◌<◌, ◌%◌, ◌↔◌, arith,
}
use booking_hotel.Sharding.Key.{buckets}
use booking_hotel.Sharding.BucketMap.{
  match_fragment, apply_parts, in_bounds, apply_fragment, round_robin, build_bucket_map, built,
  refused, malformed, out_of_bounds, fill,
}
use booking_hotel.Sharding.BucketMap.Ownership.{
  Fits, owner, fragments, build_bucket_map-owner, build_bucket_map-built_iff,
}

match_range : match_fragment (js "0-31:1") ≡ some (record { from = 0; to = 31; shard = 1 })
unfolding match_fragment js
match_range = refl

match_single : match_fragment (js "63:1") ≡ some (record { from = 63; to = 63; shard = 1 })
unfolding match_fragment js
match_single = refl

match_dash : match_fragment (js "5-:1") ≡ none
unfolding match_fragment js
match_dash = refl

build_out : build_bucket_map 2 (js "0-62:0,63:2") ≡ refused (out_of_bounds (js "63:2"))
unfolding build_bucket_map apply_parts match_fragment in_bounds apply_fragment round_robin trim
    split js
build_out = refl

build_malformed : build_bucket_map 2 (js "0-62:0, x") ≡ refused (malformed (js " x"))
unfolding build_bucket_map apply_parts match_fragment in_bounds apply_fragment round_robin trim
    split js
build_malformed = refl

abbrev halves : List ℕ
halves = fill 32 32 1 (fill 32 0 0 (round_robin 2))

build_halves : build_bucket_map 2 (js "0-31:0,32-63:1") ≡ built halves
unfolding build_bucket_map apply_parts match_fragment in_bounds apply_fragment round_robin trim
    split js
build_halves = refl

build_bucket_map-owner_example :
    (length halves ≡ buckets)
    × All (λ s. s < 2) halves
    × ((b : ℕ)
        → b < buckets
        → get_or halves b 0 ≡ owner (fragments (js "0-31:0,32-63:1")) b (b % 2))
build_bucket_map-owner_example =
    build_bucket_map-owner 2 (js "0-31:0,32-63:1") halves (omega arith) build_halves

build_bucket_map-built_iff_example :
    ((m : List ℕ) × (build_bucket_map 2 (js "0-62:0,63:2") ≡ built m))
    ↔ All (Fits 2) (fragments (js "0-62:0,63:2"))
build_bucket_map-built_iff_example = build_bucket_map-built_iff 2 (js "0-62:0,63:2")
