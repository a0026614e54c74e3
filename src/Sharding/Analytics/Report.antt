-- ===== src/Sharding/Analytics/Report.antt =====
-- The report of `cityAnalytics`, src/sharding/sharding.service.ts, over all shards.
use booking_hotel.Sharding.Router.FanOut.{failed_of, parts_of, answers_from}
use booking_hotel.Runtime.Errors.{ok, Result}
use booking_hotel.Runtime.World.{World, Config}
use booking_hotel.Runtime.Platform.{Query, Platform}
use booking_hotel.Runtime.Errors.{Result, ok}
use booking_hotel.Runtime.Platform.{Platform, Query}
use booking_hotel.Runtime.World.{World, Config}
use booking_hotel.Database.Router.{eventual_read}
use booking_hotel.Sharding.Router.FanOut.{answers_from, parts_of, failed_of}
use booking_hotel.Prelude.{
  true, ◌↔◌, ◌<◌, length, length, ◌<◌, ◌↔◌, true, ◌≤◌, ℕ, ◌≡◌, List, JsString,
}
use booking_hotel.Sharding.Analytics.{
  CityAnalytics, city_analytics, CityAnalytics, city_analytics, CityRow,
}
use booking_hotel.Sharding.Analytics.Totals.{occurrences, city_total}

-- The table that the answers of the shards make: each city stands in it at most once, with the sums
-- of its hotels, bookings and revenue over all rows of the answers.
pub record Merges (answers table : List CityRow) : Type 0 where
  pub once : (city : JsString) → occurrences city table ≤ 1
  pub hotels :
      (city : JsString)
      → city_total (λ r. r.hotels) city table ≡ city_total (λ r. r.hotels) city answers
  pub bookings :
      (city : JsString)
      → city_total (λ r. r.bookings) city table ≡ city_total (λ r. r.bookings) city answers
  pub revenue :
      (city : JsString)
      → city_total (λ r. r.revenue) city table ≡ city_total (λ r. r.revenue) city answers

module _ (P : Platform) (c : Config) (on : c.sharded ≡ true)
    (statement : Query P.prisma.Db (List CityRow)) (w : World P) where
  -- The rows that the shards which answer return, and the shards that do not.
  abbrev pub outcomes : List (ℕ × Result (List CityRow))
  outcomes = answers_from P c statement eventual_read w 0 c.shard_count
