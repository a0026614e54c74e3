-- ===== src/Sharding/Key/RoundTrip.antt =====
-- Buckets are in range, and an identifier carries the bucket that it was made for.
use booking_hotel.Prelude.{
  ℕ, zero, suc, ◌%◌, ◌^◌, ◌/◌, ◌≤◌, ◌<◌, ◌≡◌, refl, ◌∷◌, [], drop, length, arith, JsString,
}
use booking_hotel.Sharding.Key.{
  buckets, ShardStrategy, hash, city, fnv_round, fnv_from, fnv_offset, fnv1a, hex_digit, bucket_of,
  id_in_bucket, bucket_for_new_hotel,
}

fnv_from-lt : (h : ℕ) (s : JsString) → h < 2 ^ 32 → fnv_from h s < 2 ^ 32
unfolding fnv_from
fnv_from-lt h [] lt = lt
fnv_from-lt h (c ∷ s) lt = fnv_from-lt (fnv_round h c) s (omega arith)

-- The hash of any text is an unsigned 32-bit number.
pub fnv1a-lt : (s : JsString) → fnv1a s < 2 ^ 32
unfolding fnv1a
fnv1a-lt s = fnv_from-lt fnv_offset s (omega arith)

-- Every text, an identifier of this program or not, lies in one of the 64 buckets.
pub bucket_of-lt : (id : JsString) → bucket_of id < buckets
unfolding bucket_of
bucket_of-lt [] = omega arith
bucket_of-lt (a ∷ []) = omega arith
bucket_of-lt (a ∷ b ∷ s) = ground arith

pub bucket_for_new_hotel-lt :
    (lower : JsString → JsString) (strategy : ShardStrategy) (uuid name : JsString)
    → bucket_for_new_hotel lower strategy uuid name < buckets
unfolding bucket_for_new_hotel
bucket_for_new_hotel-lt lower city uuid name = omega arith
bucket_for_new_hotel-lt lower hash uuid name = omega arith

-- The two digits in front: below 16 the first is the padding.
bucket_prefix :
    (b : ℕ) (uuid : JsString)
    → b < buckets
    → id_in_bucket b uuid ≡ hex_digit (b / 16) ∷ hex_digit (b % 16) ∷ drop 2 uuid
unfolding id_in_bucket
bucket_prefix zero uuid h = refl
bucket_prefix (suc b) uuid h = ground arith

-- The digits that are written are read back as the bucket.
prefix_value :
    (b : ℕ) (rest : JsString)
    → b < buckets
    → bucket_of (hex_digit (b / 16) ∷ hex_digit (b % 16) ∷ rest) ≡ b
unfolding bucket_of
prefix_value b rest h = ground arith

-- An identifier made for one of the 64 buckets is routed to that bucket, whatever the random part.
pub bucket_of-id_in_bucket :
    (b : ℕ) (uuid : JsString) → b < buckets → bucket_of (id_in_bucket b uuid) ≡ b
bucket_of-id_in_bucket b uuid h = rw (bucket_prefix b uuid h) (prefix_value b (drop 2 uuid) h)

-- Only the first two characters change: the length and the rest are those of the UUID.
pub id_in_bucket-suffix :
    (b : ℕ) (uuid : JsString)
    → b < buckets
    → 2 ≤ length uuid
    → (drop 2 (id_in_bucket b uuid) ≡ drop 2 uuid) × (length (id_in_bucket b uuid) ≡ length uuid)
id_in_bucket-suffix b [] h k = absurd (omega arith)
id_in_bucket-suffix b (x ∷ []) h k = absurd (omega arith)
id_in_bucket-suffix b (x ∷ y ∷ s) h k =
    (rw (bucket_prefix b (x ∷ y ∷ s) h), rw (bucket_prefix b (x ∷ y ∷ s) h))
