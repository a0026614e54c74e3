-- ===== src/Sharding/Router/Colocation.antt =====
-- The aggregate of a hotel lies on one shard: the identifiers of ShardRouter and their routes.
use booking_hotel.Sharding.Key.RoundTrip.{
  bucket_for_new_hotel-lt, bucket_of-id_in_bucket, bucket_of-lt,
}
use booking_hotel.Sharding.BucketMap.Ownership.{build_bucket_map-owner}
use booking_hotel.Runtime.Errors.{ok}
use booking_hotel.Sharding.Key.{buckets, id_in_bucket, bucket_of, city, bucket_for_new_hotel}
use booking_hotel.Sharding.BucketMap.{built, build_bucket_map}
use booking_hotel.Prelude.{arith, refl, get_or, some, All-get_or, ℕ, ap, ◌≡◌, ◌<◌, JsString}
use booking_hotel.Runtime.World.{World, Config}
use booking_hotel.Sharding.Router.{shard_for_city, new_hotel_id, child_id, shard_of}
use booking_hotel.Runtime.Platform.{Platform}

module _ (P : Platform) (c : Config) (w : World P) where
  child_id-bucket :
      (parent : JsString)
      → (id : JsString) × ((child_id P c parent w).0 ≡ ok id) × (bucket_of id ≡ bucket_of parent)
  unfolding child_id
  child_id-bucket parent = (
    id_in_bucket (bucket_of parent) (P.js.uuid w.next_uuid),
    refl,
    bucket_of-id_in_bucket (bucket_of parent) (P.js.uuid w.next_uuid) (bucket_of-lt parent),
  )

  -- A new room or booking gets an identifier that is routed to the shard of its parent.
  pub child_id-shard_of :
      (parent : JsString)
      → (id : JsString) × ((child_id P c parent w).0 ≡ ok id)
        × (shard_of P c id ≡ shard_of P c parent)
  unfolding shard_of
  child_id-shard_of parent =
      let (id, made, same) = child_id-bucket parent in
      (id, made, ap (λ (b : ℕ). get_or c.bucket_map b 0) same)

  -- Under the strategy "city" a new hotel is routed to the shard that a search for its city asks.
  pub new_hotel_id-shard_for_city :
      (name : JsString)
      → c.strategy ≡ city
      → (id : JsString) × ((new_hotel_id P c name w).0 ≡ ok id)
        × (shard_for_city P c name ≡ some (shard_of P c id))
  unfolding new_hotel_id shard_for_city shard_of bucket_for_new_hotel
  new_hotel_id-shard_for_city name by_city =
      let uuid = P.js.uuid w.next_uuid in
      let b = bucket_for_new_hotel P.js.to_lower_case c.strategy uuid name in
      let inside : b < buckets = bucket_for_new_hotel-lt P.js.to_lower_case c.strategy uuid name in
      (id_in_bucket b uuid, refl, ground (arith, bucket_of-id_in_bucket b uuid inside))

-- With at least one shard and a bucket map that `buildBucketMap` made for the number of shards,
-- every identifier is routed to a shard that exists.
pub shard_of-lt :
    (P : Platform) (c : Config) (spec id : JsString)
    → 0 < c.shard_count
    → build_bucket_map c.shard_count spec ≡ built c.bucket_map
    → shard_of P c id < c.shard_count
unfolding shard_of
shard_of-lt P c spec id pos made =
    let (size, owners, _) = build_bucket_map-owner c.shard_count spec c.bucket_map pos made in
    All-get_or (λ s. s < c.shard_count) c.bucket_map (bucket_of id) 0 owners
      (rw size (bucket_of-lt id))
