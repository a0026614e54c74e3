-- ===== src/Sharding/Analytics/Tests.antt =====
-- Two shards with a city in common.
use booking_hotel.Prelude.{[], ◌∷◌, JsString, List}
use booking_hotel.Schema.{Tables}
use booking_hotel.Runtime.Errors.{ok}
use booking_hotel.Runtime.Platform.{Query}
use booking_hotel.Sharding.Analytics.{CityRow}

abbrev lviv : JsString
lviv = 76 ∷ []

abbrev kyiv : JsString
kyiv = 75 ∷ []

-- The shard with a booking has both cities, the other one of them.
abbrev grouped : Query Tables (List CityRow)
grouped t = (
  ok (elim t.bookings [
    | [] ↦ record { city = kyiv; hotels = 1; bookings = 1; revenue = 700 } ∷ []
    | b ∷ bs ↦
        record { city = lviv; hotels = 1; bookings = 2; revenue = 300 }
        ∷ record { city = kyiv; hotels = 2; bookings = 5; revenue = 200 }
        ∷ []
  ]),
  t,
)
