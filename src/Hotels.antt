-- ===== src/Hotels.antt =====
-- HotelsService, src/hotels/hotels.service.ts. The rooms that a read includes are not modelled.
pub mod Placement
pub mod Rows
pub mod Coherence
mod Tests
use booking_hotel.Prelude.{
  ℕ, Bool, true, Option, none, some, List, [], ◌∷◌, ◌++◌, JsString, js, str_eq, or_old,
}
use booking_hotel.Schema.{Hotel}
use booking_hotel.Runtime.Errors.{Result, Error, http}
use booking_hotel.Runtime.Platform.{Platform, NewHotel, Query}
use booking_hotel.Runtime.World.{World, Action, Config, pure, throw, ◌>>=◌, ◌>>◌}
use booking_hotel.Cache.Keys.{hotel_key, hotel_ttl, search_version}
use booking_hotel.Cache.Service.{CacheResult, get_or_set, invalidate, bump_version}
use booking_hotel.Database.Router.{Consistency, eventual_read, strong_read, primary_preferred_read}
use booking_hotel.Sharding.Router.{for_key, read_shard, write_shard, fan_out_list, new_hotel_id}

-- Ratings are tenths.
pub record CreateHotel : Type 0 where
  pub name : JsString
  pub address : JsString
  pub city : JsString
  pub rating : Option ℕ

pub record UpdateHotel : Type 0 where
  pub name : Option JsString
  pub address : Option JsString
  pub city : Option JsString
  pub rating : Option ℕ

unfoldable pub hotel_not_found : JsString → Error
unfolding js
hotel_not_found id = http 404 (js "Hotel with id " ++ (id ++ js " not found"))

unfoldable pub apply_hotel : UpdateHotel → Hotel → Hotel
apply_hotel dto h = record h {
  name = or_old dto.name h.name;
  address = or_old dto.address h.address;
  city = or_old dto.city h.city;
  rating = or_old dto.rating h.rating;
}

abbrev pub hotel_with : JsString → Hotel → Bool
hotel_with id h = str_eq h.id id

abbrev pub new_hotel : JsString → CreateHotel → NewHotel
new_hotel id dto = record {
  id = id;
  name = dto.name;
  address = dto.address;
  city = dto.city;
  rating = dto.rating;
}

module _ (P : Platform) (c : Config) where
  unfoldable pub create : CreateHotel → Action P Hotel
  create dto = do
    id ← new_hotel_id P c dto.city
    shard ← for_key P c id
    write_shard P c shard (P.prisma.hotel.create (new_hotel id dto))

  unfoldable pub find_all : Action P (List Hotel)
  find_all = fan_out_list P c (P.prisma.hotel.find_many (λ _ _. true)) true eventual_read

  abbrev require_hotel : JsString → Option Hotel → Action P Hotel
  require_hotel id none = throw (hotel_not_found id)
  require_hotel id (some h) = pure h

  unfoldable pub find_one : JsString → Consistency → Action P Hotel
  find_one id consistency = do
    shard ← for_key P c id
    found ← read_shard P c shard (P.prisma.hotel.find_unique (hotel_with id)) consistency
    require_hotel id found

  unfoldable pub find_one_cached :
      (Hotel → JsString) → (JsString → Result Hotel) → JsString → Action P (CacheResult Hotel)
  find_one_cached stringify parse id =
      get_or_set P c stringify parse (hotel_key id) hotel_ttl (find_one id primary_preferred_read)
        (find_one id eventual_read)

  -- One write on the hotel's shard; then its card and the search results are stale.
  unfoldable pub write_hotel : JsString → Query P.prisma.Db Hotel → Action P Hotel
  write_hotel id mutation = do
    shard ← for_key P c id
    hotel ← write_shard P c shard mutation
    invalidate P c (hotel_key id ∷ [])
    bump_version P c search_version
    pure hotel

  unfoldable pub update : JsString → UpdateHotel → Action P Hotel
  update id dto = do
    find_one id strong_read
    write_hotel id (P.prisma.hotel.update (hotel_with id) (apply_hotel dto))

  unfoldable pub remove : JsString → Action P Hotel
  remove id = do find_one id strong_read; write_hotel id (P.prisma.hotel.delete (hotel_with id))
