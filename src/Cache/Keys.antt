-- ===== src/Cache/Keys.antt =====
-- The keys, src/cache/cache-keys.ts. `new Date(s).toISOString()` of a date is determined by its
-- instant, so a normalised date is that instant; `JSON.stringify` of the normalised parameters is
-- an argument.
use booking_hotel.Prelude.{ℕ, Option, none, some, JsString, [], ◌∷◌, ◌++◌, js, trim}
use booking_hotel.Runtime.Platform.{Js}
use booking_hotel.Cache.Service.{Ttl}

pub record SearchParams : Type 0 where
  pub city : Option JsString
  pub check_in : JsString
  pub check_out : JsString
  pub guests : Option ℕ

pub record NormalizedParams : Type 0 where
  pub city : JsString
  pub check_in : ℕ
  pub check_out : ℕ
  pub guests : ℕ

abbrev city_or_empty : Js → Option JsString → JsString
city_or_empty j none = []
city_or_empty j (some []) = []
city_or_empty j (some (x ∷ s)) = j.to_lower_case (trim (x ∷ s))

abbrev guests_or_zero : Option ℕ → ℕ
guests_or_zero none = 0
guests_or_zero (some n) = n

unfoldable pub normalize_search_params : Js → SearchParams → NormalizedParams
unfolding trim
normalize_search_params j p = record {
  city = city_or_empty j p.city;
  check_in = j.date_ms p.check_in;
  check_out = j.date_ms p.check_out;
  guests = guests_or_zero p.guests;
}

unfoldable pub hotel_key : JsString → JsString
unfolding js
hotel_key id = js "booking:hotel:" ++ id

unfoldable pub search_version : JsString
unfolding js
search_version = js "booking:rooms:search:version"

unfoldable pub rooms_search : Js → (NormalizedParams → JsString) → ℕ → SearchParams → JsString
unfolding js normalize_search_params
rooms_search j stringify version params =
    js "booking:rooms:search:v"
    ++ (j.decimal version ++ (js ":" ++ j.sha1 (stringify (normalize_search_params j params))))

abbrev pub hotel_ttl : Ttl
hotel_ttl = record { base = 600; jitter = 60 }

abbrev pub rooms_search_ttl : Ttl
rooms_search_ttl = record { base = 60; jitter = 10 }
