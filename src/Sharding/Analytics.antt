-- ===== src/Sharding/Analytics.antt =====
-- ShardingService, src/sharding/sharding.service.ts. The raw SQL of a shard is an argument: a query
-- that returns the rows which the statement selects. Revenue is a number of cents; it is not
-- negative, since a booking is made for a positive number of nights. A share is a whole number of
-- tenths of a percent, rounded half up without the error of a floating-point division. Times are
-- left out.
pub mod Totals
pub mod Report
mod Tests
use booking_hotel.Prelude.{
  length, ℕ, ◌+◌, ◌*◌, ◌/◌, ltb, leb, Bool, true, false, Option, none, some, List, [], ◌∷◌, ◌++◌,
  JsString, js, map, str_eq, if◌then◌else◌,
}
use booking_hotel.Runtime.Errors.{Error, http}
use booking_hotel.Runtime.Platform.{Platform, Query}
use booking_hotel.Runtime.World.{World, Action, Config, pure, throw, gets, modify, ◌>>=◌, ◌>>◌}
use booking_hotel.Database.Router.{eventual_read}
use booking_hotel.Sharding.Key.{ShardStrategy}
use booking_hotel.Sharding.Router.{
  FanOutPart, check_health, describe, fan_out, for_key, name_of, read_shard,
}
use booking_hotel.Sharding.Resharding.{
  BalanceRow, ReshardingRow, simulate_resharding, ring_balance, default_vnode_options,
}

-- What `distribution` asks of a shard.
pub record ShardCounts : Type 0 where
  pub hotels : ℕ
  pub rooms : ℕ
  pub bookings : ℕ
  pub write_ops : ℕ
  pub used_buckets : ℕ
  pub hotels_by_city : List (JsString × ℕ)

abbrev pub records : ShardCounts → ℕ
records r = r.hotels + r.rooms + r.bookings

pub record ShardShare : Type 0 where
  pub shard : JsString
  pub counts : ShardCounts
  pub data_share : ℕ
  pub write_share : ℕ

pub record Distribution : Type 0 where
  pub strategy : ShardStrategy
  pub shards : List ShardShare
  pub total_records : ℕ
  pub total_writes : ℕ
  pub unavailable : List JsString

pub record HotelStats : Type 0 where
  pub hotel_id : JsString
  pub city : JsString
  pub rooms : ℕ
  pub bookings : ℕ
  pub revenue : ℕ

-- A row of `GROUP BY h.city`, and of the merged table.
pub record CityRow : Type 0 where
  pub city : JsString
  pub hotels : ℕ
  pub bookings : ℕ
  pub revenue : ℕ

-- A shard that answered stands beside the number of its rows.
pub record CityAnalytics : Type 0 where
  pub cities : List CityRow
  pub shards : List (JsString × ℕ)
  pub partial : Bool
  pub unavailable : List JsString

unfoldable pub no_hotel : JsString → Error
unfolding js
no_hotel id = http 404 (js "Hotel with id " ++ (id ++ js " not found"))

unfoldable pub sum : List ℕ → ℕ
sum [] = 0
sum (v ∷ values) = v + sum values

-- `pct` in tenths of a percent.
unfoldable pub share : ℕ → ℕ → ℕ
share part total = if ltb 0 total then (2 * (part * 1000) + total) / (2 * total) else 0

abbrev pub add_row : CityRow → CityRow → CityRow
add_row acc row = record acc {
  hotels = acc.hotels + row.hotels;
  bookings = acc.bookings + row.bookings;
  revenue = acc.revenue + row.revenue;
}

abbrev pub no_rows : JsString → CityRow
no_rows city = record { city = city; hotels = 0; bookings = 0; revenue = 0 }

-- `merged.set(row.city, acc)` on the insertion order of the Map.
unfoldable pub merge_row : CityRow → List CityRow → List CityRow
merge_row row [] = add_row (no_rows row.city) row ∷ []
merge_row row (acc ∷ merged) =
    let rest = merge_row row merged in
    if str_eq acc.city row.city then add_row acc row ∷ merged else acc ∷ rest

unfoldable pub merge_rows : List CityRow → List CityRow → List CityRow
merge_rows [] merged = merged
merge_rows (row ∷ rows) merged = merge_rows rows (merge_row row merged)

unfoldable pub merge_parts : List (FanOutPart (List CityRow)) → List CityRow → List CityRow
merge_parts [] merged = merged
merge_parts (part ∷ parts) merged = merge_parts parts (merge_rows part.result merged)

-- `sort((a, b) => b.revenue - a.revenue)`, which is stable.
unfoldable pub insert_richest : CityRow → List CityRow → List CityRow
insert_richest r [] = r ∷ []
insert_richest r (x ∷ xs) =
    let rest = insert_richest r xs in if leb x.revenue r.revenue then r ∷ x ∷ xs else x ∷ rest

unfoldable pub richest_first : List CityRow → List CityRow
richest_first [] = []
richest_first (r ∷ rows) = insert_richest r (richest_first rows)

-- `Math.min(Math.max(keys, 1_000), 500_000)`
unfoldable pub key_count : ℕ → ℕ
key_count keys = if ltb keys 1000 then 1000 else if ltb 500000 keys then 500000 else keys

abbrev pub transitions : List (ℕ × ℕ)
transitions = (2, 3) ∷ (2, 4) ∷ (3, 4) ∷ (4, 5) ∷ []

abbrev pub default_vnodes : ℕ
default_vnodes = 128

pub record ReshardingReport : Type 0 where
  pub keys : ℕ
  pub transitions : List ReshardingRow
  pub ring_balance : List BalanceRow

-- `resharding`, with the hashes of the random keys, of which either part draws its own.
unfoldable pub resharding :
    (JsString → ℕ) → (ℕ → JsString) → (ℕ → List ℕ) → (ℕ → List ℕ) → ℕ → ReshardingReport
resharding ring_position decimal random_hashes more_hashes keys = record {
  keys = key_count keys;
  transitions =
      simulate_resharding ring_position decimal default_vnodes transitions
        (random_hashes (key_count keys));
  ring_balance =
      ring_balance ring_position decimal 4 (more_hashes (key_count keys)) default_vnode_options;
}

abbrev pub not_empty : List JsString → Bool
not_empty [] = false
not_empty (x ∷ xs) = true

module _ (P : Platform) (c : Config) where
  -- The health that `status` reports is checked first.
  unfoldable pub status : Action P (Unit {0})
  status = modify (check_health P c)

  unfoldable pub route : JsString → ℕ × JsString
  route id = describe P c id

  unfoldable pub distribution : Query P.prisma.Db ShardCounts → Action P Distribution
  distribution counting = do
    res ← fan_out P c counting true eventual_read
    pure (
        let total_records =
          sum (map (λ (p : FanOutPart ShardCounts). records p.result) res.parts) in
        let total_writes =
          sum (map (λ (p : FanOutPart ShardCounts). p.result.write_ops) res.parts) in
        record {
          strategy = c.strategy;
          shards =
              map
                (λ (p : FanOutPart ShardCounts). record {
                  shard = p.shard;
                  counts = p.result;
                  data_share = share (records p.result) total_records;
                  write_share = share p.result.write_ops total_writes;
                })
                res.parts;
          total_records = total_records;
          total_writes = total_writes;
          unavailable = res.failed;
        })

  abbrev first_row : JsString → List HotelStats → Action P HotelStats
  first_row id [] = throw (no_hotel id)
  first_row id (row ∷ rows) = pure row

  unfoldable pub hotel_stats : Query P.prisma.Db (List HotelStats) → JsString → Action P HotelStats
  hotel_stats statement id = do
    shard ← for_key P c id
    rows ← read_shard P c shard statement eventual_read
    first_row id rows

  unfoldable pub city_analytics : Query P.prisma.Db (List CityRow) → Action P CityAnalytics
  city_analytics statement = do
    res ← fan_out P c statement true eventual_read
    pure (record {
      cities = richest_first (merge_parts res.parts []);
      shards = map (λ (p : FanOutPart (List CityRow)). (p.shard, length p.result)) res.parts;
      partial = not_empty res.failed;
      unavailable = res.failed;
    })
