-- ===== src/Rooms.antt =====
-- RoomsService, src/rooms/rooms.service.ts. The hotel that a read includes is not modelled.
pub mod Search
pub mod Completeness
pub mod Placement
mod Tests
use booking_hotel.Prelude.{
  ℕ, zero, suc, leb, ltb, Bool, true, false, not, ◌&&◌, ◌==◌, Option, none, some, List, [], ◌∷◌,
  ◌++◌, JsString, js, str_eq, any, map, or_old, if◌then◌else◌,
}
use booking_hotel.Schema.{Booking, Hotel, Room, RoomType, Tables, is_active}
use booking_hotel.Runtime.Errors.{Result, Error, http}
use booking_hotel.Runtime.Platform.{Platform, NewRoom, Query}
use booking_hotel.Runtime.World.{World, Action, Config, pure, throw, ◌>>=◌, ◌>>◌}
use booking_hotel.Cache.Keys.{
  NormalizedParams, SearchParams, hotel_key, rooms_search, rooms_search_ttl, search_version,
}
use booking_hotel.Cache.Service.{CacheResult, get_or_set, get_version, invalidate, bump_version}
use booking_hotel.Database.State.{add_once}
use booking_hotel.Database.Router.{Consistency, eventual_read, strong_read, primary_preferred_read}
use booking_hotel.Sharding.Key.{bucket_of}
use booking_hotel.Sharding.Router.{
  child_id, for_key, read_shard, write_shard, fan_out_list, shard_for_city,
}
use booking_hotel.Hotels.{hotel_not_found, hotel_with}

pub record CreateRoom : Type 0 where
  pub hotel_id : JsString
  pub room_number : JsString
  pub type : RoomType
  pub price_per_night : ℕ
  pub capacity : ℕ

pub record UpdateRoom : Type 0 where
  pub hotel_id : Option JsString
  pub room_number : Option JsString
  pub type : Option RoomType
  pub price_per_night : Option ℕ
  pub capacity : Option ℕ

unfoldable pub room_missing : JsString → Error
unfolding js
room_missing id = http 404 (js "Room with id " ++ (id ++ js " not found"))

unfoldable pub room_exists : JsString → Error
unfolding js
room_exists number = http 409 (js "Room " ++ (number ++ js " already exists in this hotel"))

unfoldable pub other_bucket : Error
unfolding js
other_bucket = http 400 (js "Room cannot be moved to a hotel in another shard bucket")

abbrev pub room_with : JsString → Room → Bool
room_with id r = str_eq r.id id

abbrev pub same_number : JsString → JsString → Room → Bool
same_number hotel_id number r = str_eq r.hotel_id hotel_id && str_eq r.room_number number

abbrev pub new_room : JsString → CreateRoom → NewRoom
new_room id dto = record {
  id = id;
  hotel_id = dto.hotel_id;
  room_number = dto.room_number;
  type = dto.type;
  price_per_night = dto.price_per_night;
  capacity = dto.capacity;
}

unfoldable pub apply_room : UpdateRoom → Room → Room
apply_room dto r = record r {
  hotel_id = or_old dto.hotel_id r.hotel_id;
  room_number = or_old dto.room_number r.room_number;
  type = or_old dto.type r.type;
  price_per_night = or_old dto.price_per_night r.price_per_night;
  capacity = or_old dto.capacity r.capacity;
}

-- `[...new Set(hotelIds.filter(Boolean))]`
unfoldable pub unique_ids : List JsString → List JsString → List JsString
unfolding add_once
unique_ids [] seen = seen
unique_ids ([] ∷ ids) seen = unique_ids ids seen
unique_ids ((x ∷ s) ∷ ids) seen = unique_ids ids (add_once str_eq (x ∷ s) seen)

-- `dto.guests ? { gte: dto.guests } : undefined`
abbrev pub fits_guests : Option ℕ → Room → Bool
fits_guests none r = true
fits_guests (some zero) r = true
fits_guests (some (suc n)) r = leb (suc n) r.capacity

-- `dto.city ? { city: dto.city } : undefined`, of the hotel that the room belongs to.
abbrev pub lies_in : Option JsString → Tables → Room → Bool
lies_in none t r = true
lies_in (some []) t r = true
lies_in (some (x ∷ s)) t r =
    any (λ (h : Hotel). str_eq h.id r.hotel_id && str_eq h.city (x ∷ s)) t.hotels

-- The bookings that make a room unavailable.
abbrev pub occupies : ℕ → ℕ → Room → Booking → Bool
occupies check_in check_out r b =
    str_eq b.room_id r.id
    && is_active b.status
    && ltb b.check_in_date check_out
    && ltb check_in b.check_out_date

-- The `where` of `search`.
unfoldable pub matches : ℕ → ℕ → SearchParams → Tables → Room → Bool
matches check_in check_out dto t r =
    fits_guests dto.guests r
    && lies_in dto.city t r
    && not (any (occupies check_in check_out r) t.bookings)

-- `dto.hotelId && bucketOf(dto.hotelId) !== bucketOf(id)`
abbrev pub leaves_bucket : Option JsString → JsString → Bool
leaves_bucket none id = false
leaves_bucket (some []) id = false
leaves_bucket (some (x ∷ s)) id = not (bucket_of (x ∷ s) == bucket_of id)

module _ (P : Platform) (c : Config) where
  unfoldable pub invalidate_for_rooms : List JsString → Action P (Unit {0})
  invalidate_for_rooms hotel_ids = do
    invalidate P c (map hotel_key (unique_ids hotel_ids []))
    bump_version P c search_version

  abbrev require_hotel : JsString → Option Hotel → Action P (Unit {0})
  require_hotel id none = throw (hotel_not_found id)
  require_hotel id (some h) = pure tt

  abbrev require_no_room : JsString → Option Room → Action P (Unit {0})
  require_no_room number none = pure tt
  require_no_room number (some r) = throw (room_exists number)

  unfoldable pub create : CreateRoom → Action P Room
  create dto = do
    shard ← for_key P c dto.hotel_id
    hotel ← read_shard P c shard (P.prisma.hotel.find_unique (hotel_with dto.hotel_id)) strong_read
    require_hotel dto.hotel_id hotel
    existing ←
        read_shard P c shard (P.prisma.room.find_unique (same_number dto.hotel_id dto.room_number))
          strong_read
    require_no_room dto.room_number existing
    id ← child_id P c dto.hotel_id
    room ← write_shard P c shard (P.prisma.room.create (new_room id dto))
    invalidate_for_rooms (room.hotel_id ∷ [])
    pure room

  unfoldable pub find_all : Action P (List Room)
  find_all = fan_out_list P c (P.prisma.room.find_many (λ _ _. true)) true eventual_read

  abbrev require_room : JsString → Option Room → Action P Room
  require_room id none = throw (room_missing id)
  require_room id (some r) = pure r

  unfoldable pub find_one : JsString → Consistency → Action P Room
  find_one id consistency = do
    shard ← for_key P c id
    found ← read_shard P c shard (P.prisma.room.find_unique (room_with id)) consistency
    require_room id found

  -- `dto.city ? shardForCity(dto.city) : null`
  abbrev pub local_shard : Option JsString → Option ℕ
  local_shard none = none
  local_shard (some []) = none
  local_shard (some (x ∷ s)) = shard_for_city P c (x ∷ s)

  abbrev pub search_query : SearchParams → Query P.prisma.Db (List Room)
  search_query dto =
      P.prisma.room.find_many (matches (P.js.date_ms dto.check_in) (P.js.date_ms dto.check_out) dto)

  unfoldable pub search : SearchParams → Consistency → Action P (List Room)
  search dto consistency = elim (local_shard dto.city) [
    | some shard ↦ read_shard P c shard (search_query dto) consistency
    | none ↦ fan_out_list P c (search_query dto) true consistency
  ]

  unfoldable pub search_cached :
      (NormalizedParams → JsString)
      → (List Room → JsString)
      → (JsString → Result (List Room))
      → SearchParams
      → Action P (CacheResult (List Room))
  search_cached stringify_params stringify parse dto = do
    version ← get_version P c search_version
    get_or_set P c stringify parse (rooms_search P.js stringify_params version dto) rooms_search_ttl
        (search dto primary_preferred_read) (search dto eventual_read)

  unfoldable pub update : JsString → UpdateRoom → Action P Room
  update id dto = if leaves_bucket dto.hotel_id id then throw other_bucket else (do
    before ← find_one id strong_read
    shard ← for_key P c id
    room ← write_shard P c shard (P.prisma.room.update (room_with id) (apply_room dto))
    invalidate_for_rooms (before.hotel_id ∷ room.hotel_id ∷ [])
    pure room)

  unfoldable pub remove : JsString → Action P Room
  remove id = do
    find_one id strong_read
    shard ← for_key P c id
    room ← write_shard P c shard (P.prisma.room.delete (room_with id))
    invalidate_for_rooms (room.hotel_id ∷ [])
    pure room
