-- ===== src/Sharding/Router/Report.antt =====
-- `getHealth` and `getState` of ShardRouter, src/sharding/shard-router.service.ts. What is spread
-- from an array is `none` out of its bounds, as `...undefined` adds nothing.
use booking_hotel.Sharding.BucketMap.Ownership.{build_bucket_map-owner}
use booking_hotel.Sharding.BucketMap.{built, build_bucket_map}
use booking_hotel.Prelude.{
  ap, ◌∙◌, ◌≡◌, ℕ, zero, suc, ◌+◌, ◌<◌, Option, List, [], ◌∷◌, ◌++◌, JsString, js, map, range_from,
  get_elem?, get_or, if◌then◌else◌, arith, refl,
}
use booking_hotel.Runtime.Platform.{Platform}
use booking_hotel.Runtime.World.{World, Config, ShardHealth, ShardStats, Totals}
use booking_hotel.Sharding.Key.{ShardStrategy, buckets}
use booking_hotel.Sharding.Resharding.{owned_by}
use booking_hotel.Sharding.Resharding.Sums.{sum_from-owned_by, get_or-map_range, sum_from}
use booking_hotel.Sharding.Router.{all_shards, name_of, buckets_per_shard}

pub record ShardReport : Type 0 where
  pub name : JsString
  pub buckets : ℕ
  pub health : Option ShardHealth
  pub stats : Option ShardStats

pub record ShardRouterReport : Type 0 where
  pub topology : JsString
  pub strategy : ShardStrategy
  pub buckets : ℕ
  pub shards : List ShardReport
  pub bucket_map : List ℕ
  pub totals : Totals

module _ (P : Platform) (c : Config) where
  unfoldable pub get_health : World P → List (JsString × Option ShardHealth)
  get_health w = map (λ i. (name_of P c i, get_elem? w.shards.health i)) (all_shards P c)

  unfoldable pub topology_of : JsString
  unfolding js
  topology_of =
      if c.sharded
      then js "sharded (" ++ (P.js.decimal c.shard_count ++ js " shards)")
      else js "single node (global)"

  unfoldable pub shard_report : World P → ℕ → ShardReport
  shard_report w i = record {
    name = name_of P c i;
    buckets = get_or (buckets_per_shard P c) i 0;
    health = get_elem? w.shards.health i;
    stats = get_elem? w.shards.stats i;
  }

  unfoldable pub get_state : World P → ShardRouterReport
  unfolding topology_of shard_report
  get_state w = record {
    topology = topology_of;
    strategy = c.strategy;
    buckets = buckets;
    shards = map (shard_report w) (all_shards P c);
    bucket_map = c.bucket_map;
    totals = w.shards.totals;
  }

abbrev pub all_buckets : List ShardReport → ℕ
all_buckets [] = 0
all_buckets (r ∷ rs) = r.buckets + all_buckets rs

module _ (P : Platform) (c : Config) (w : World P) where
  report-buckets :
      (i : ℕ)
      → (shard_report P c w i).buckets
        ≡ get_or (map (owned_by c.bucket_map) (range_from 0 c.shard_count)) i 0
  unfolding shard_report buckets_per_shard owned_by
  report-buckets i = refl

  all_buckets-sum :
      (s k : ℕ) (f : ℕ → ℕ)
      → ((i : ℕ) → i < s + k → (shard_report P c w i).buckets ≡ f i)
      → all_buckets (map (shard_report P c w) (range_from s k)) ≡ sum_from s k f
  all_buckets-sum s zero f e = refl
  all_buckets-sum s (suc k) f e =
      let rest = all_buckets-sum (suc s) k f (λ i lt. e i (omega arith)) in
      let here = e s (omega arith) in omega (arith, rest, here)

  -- Where the bucket map is one that SHARD_BUCKET_MAP gives for at least one shard, the numbers of
  -- buckets that the status reports for the shards add up to the number of buckets it reports: each
  -- bucket is counted on exactly one shard.
  pub get_state-buckets :
      (spec : JsString)
      → 0 < c.shard_count
      → build_bucket_map c.shard_count spec ≡ built c.bucket_map
      → all_buckets (get_state P c w).shards ≡ (get_state P c w).buckets
  unfolding get_state
  get_state-buckets spec positive made =
      let (size, owners, _) =
        build_bucket_map-owner c.shard_count spec c.bucket_map positive made in
      all_buckets-sum 0 c.shard_count (owned_by c.bucket_map) (λ i lt.
        report-buckets i
        ∙ get_or-map_range (owned_by c.bucket_map) 0 c.shard_count i (omega (arith, lt))
        ∙ ap (owned_by c.bucket_map) (omega arith))
      ∙ (sum_from-owned_by c.shard_count c.bucket_map owners ∙ size)
