-- ===== src/Bookings/Service.antt =====
-- BookingsService, src/bookings/bookings.service.ts, but for relocation. The relations that a read
-- includes (room and hotel) are not modelled: the row is. A controller hands its parsed body on.
pub mod Writes
pub mod Creation
pub mod Lifecycle
mod Tests
use mathlib.Core.Option
use booking_hotel.Bookings.Reservation.{reserve}
use booking_hotel.Bookings.Transactions.{serializable, serialization_retries}
use booking_hotel.Sharding.Key.{bucket_of, id_in_bucket}
use booking_hotel.Database.Router.{eventual_read, read, strong_read, Consistency}
use booking_hotel.Database.State.{add_once}
use booking_hotel.Runtime.World.{World, Action, Config, pure, throw, ◌>>=◌, ◌>>◌, modify, gets}
use booking_hotel.Runtime.Errors.{t1_reserve, plain, Error, Result, ok, err, http}
use booking_hotel.Runtime.Platform.{Platform, Query}
use booking_hotel.Prelude.{
  or_old, ◌==◌, not, ◌-◌, false, true, any, map, leb, str_eq, ◌+◌, Bool, if◌then◌else◌, ◌++◌, ℕ,
  Option, JsString, List, js, none, some, [], ◌∷◌,
}
use booking_hotel.Cache.Keys.{search_version}
use booking_hotel.Cache.Service.{bump_version}
use booking_hotel.Sharding.Router.{fan_out_list, for_key, write_shard, read_shard}
use booking_hotel.Schema.{Guest, BookingStatus, Booking, pending, confirmed, cancelled, completed}

pub record CreateBooking : Type 0 where
  pub room_id : JsString
  pub guest_id : JsString
  pub check_in_date : JsString
  pub check_out_date : JsString

pub record UpdateBooking : Type 0 where
  pub room_id : Option JsString
  pub guest_id : Option JsString
  pub check_in_date : Option JsString
  pub check_out_date : Option JsString

-- `{ ...b, guest: byId.get(b.guestId) ?? null }`
pub record WithGuest : Type 0 where
  pub booking : Booking
  pub guest : Option Guest

unfoldable pub reversed_dates : Error
unfolding js
reversed_dates = http 400 (js "checkOutDate must be after checkInDate")

unfoldable pub guest_not_found : JsString → Error
unfolding js
guest_not_found id = http 404 (js "Guest with id " ++ (id ++ js " not found"))

unfoldable pub booking_not_found : JsString → Error
unfolding js
booking_not_found id = http 404 (js "Booking with id " ++ (id ++ js " not found"))

unfoldable pub other_shard : Error
unfolding js
other_shard =
    http 400
      (js "Booking cannot be moved to another shard with PATCH; use POST /bookings/:id/relocate")

unfoldable pub already_cancelled : Error
unfolding js
already_cancelled = http 409 (js "Booking is already cancelled")

unfoldable pub already_completed : Error
unfolding js
already_completed = http 409 (js "Cannot cancel a completed booking")

-- `new Map(guests.map((g) => [g.id, g])).get(id) ?? null`: a later entry wins.
unfoldable pub guest_by_id : JsString → List Guest → Option Guest
guest_by_id id [] = none
guest_by_id id (g ∷ gs) = elim (guest_by_id id gs) [
  | some later ↦ some later
  | none ↦ if str_eq g.id id then some g else none
]

unfoldable pub distinct_guests : List Booking → List JsString → List JsString
distinct_guests [] ids = ids
distinct_guests (b ∷ bs) ids = distinct_guests bs (add_once str_eq b.guest_id ids)

unfoldable pub join_guests : List Guest → List Booking → List WithGuest
unfolding guest_by_id
join_guests gs bs = map (λ b. record { booking = b; guest = guest_by_id b.guest_id gs }) bs

-- A truthy optional text.
abbrev pub truthy : Option JsString → Option JsString
truthy none = none
truthy (some []) = none
truthy (some (x ∷ s)) = some (x ∷ s)

-- The columns that a PATCH gives; `undefined` leaves a column alone.
unfoldable pub apply_update : (JsString → ℕ) → UpdateBooking → Booking → Booking
apply_update date_ms dto b = record b {
  room_id = or_old dto.room_id b.room_id;
  guest_id = or_old dto.guest_id b.guest_id;
  check_in_date = or_old (Option.map date_ms dto.check_in_date) b.check_in_date;
  check_out_date = or_old (Option.map date_ms dto.check_out_date) b.check_out_date;
}

abbrev pub with_status : BookingStatus → Booking → Booking
with_status s b = record b { status = s }

abbrev pub by_id : JsString → Booking → Bool
by_id id b = str_eq b.id id

module _ (P : Platform) (c : Config) where
  unfoldable pub invalidate_search : Action P (Unit {0})
  invalidate_search = bump_version P c search_version

  abbrev require_guest : JsString → Option Guest → Action P (Unit {0})
  require_guest id none = throw (guest_not_found id)
  require_guest id (some g) = pure tt

  unfoldable pub assert_guest_exists : JsString → Action P (Unit {0})
  assert_guest_exists id = do
    found ← read P c (P.prisma.guest.find_unique (λ g. str_eq g.id id)) strong_read
    require_guest id found

  unfoldable pub attach_guests : List Booking → Consistency → Action P (List WithGuest)
  attach_guests bookings consistency = elim (distinct_guests bookings []) [
    | [] ↦ pure (join_guests [] bookings)
    | i ∷ ids ↦ do
      guests ← read P c (P.prisma.guest.find_many (λ _ g. any (str_eq g.id) (i ∷ ids))) consistency
      pure (join_guests guests bookings)
  ]

  abbrev require_booking : JsString → Option Booking → Action P Booking
  require_booking id none = throw (booking_not_found id)
  require_booking id (some b) = pure b

  unfoldable pub find_local : JsString → Action P Booking
  find_local id = do
    shard ← for_key P c id
    found ← read_shard P c shard (P.prisma.booking.find_unique (by_id id)) strong_read
    require_booking id found

  -- The identifier that `create` draws in the attempt after which `left` may follow.
  unfoldable pub attempt_id : ℕ → JsString → ℕ → JsString
  attempt_id first room_id left =
      id_in_bucket (bucket_of room_id) (P.js.uuid (first + (serialization_retries - 1 - left)))

  -- The part of `create` behind the checks. The supply of UUIDs moves on by the attempts allowed.
  unfoldable pub reserve_new : CreateBooking → ℕ → ℕ → Action P Booking
  reserve_new dto check_in check_out = do
    shard ← for_key P c dto.room_id
    first ← gets (λ w. w.next_uuid)
    modify (λ w. record w { next_uuid = w.next_uuid + serialization_retries })
    booking ← write_shard P c shard (
        serializable P.prisma λ left.
          reserve P.prisma
            (record {
              id = attempt_id first dto.room_id left;
              room_id = dto.room_id;
              guest_id = dto.guest_id;
              check_in = check_in;
              check_out = check_out;
              status = pending;
            })
            none)
    invalidate_search
    pure booking

  unfoldable pub create : CreateBooking → Action P Booking
  create dto =
      let check_in = P.js.date_ms dto.check_in_date in
      let check_out = P.js.date_ms dto.check_out_date in
      if leb check_out check_in
      then throw reversed_dates
      else (assert_guest_exists dto.guest_id >> reserve_new dto check_in check_out)

  unfoldable pub find_all : Action P (List WithGuest)
  find_all = do
    bookings ← fan_out_list P c (P.prisma.booking.find_many (λ _ _. true)) true eventual_read
    attach_guests bookings eventual_read

  abbrev first_of_list : List WithGuest → Action P WithGuest
  first_of_list [] = throw (plain [])
  first_of_list (x ∷ xs) = pure x

  unfoldable pub find_one : JsString → Action P WithGuest
  find_one id = do
    booking ← find_local id
    joined ← attach_guests (booking ∷ []) strong_read
    first_of_list joined

  -- One write on the booking's shard, and the new search version.
  unfoldable pub write_booking : {A : Type 0} → JsString → Query P.prisma.Db A → Action P A
  write_booking id mutation = do
    shard ← for_key P c id
    result ← write_shard P c shard mutation
    invalidate_search
    pure result

  abbrev check_guest : Option JsString → Action P (Unit {0})
  check_guest none = pure tt
  check_guest (some id) = assert_guest_exists id

  -- `dto.roomId && bucketOf(dto.roomId) !== bucketOf(id)`
  unfoldable pub leaves_bucket : Option JsString → JsString → Bool
  leaves_bucket none id = false
  leaves_bucket (some room_id) id = not (bucket_of room_id == bucket_of id)

  unfoldable pub update : JsString → UpdateBooking → Action P Booking
  update id dto =
      if leaves_bucket (truthy dto.room_id) id
      then throw other_shard
      else (check_guest (truthy dto.guest_id)
          >> find_local id
          >> write_booking id (P.prisma.booking.update (by_id id) (apply_update P.js.date_ms dto)))

  unfoldable pub remove : JsString → Action P Booking
  remove id = do find_local id; write_booking id (P.prisma.booking.delete (by_id id))

  -- `cancel` behind the lookup.
  unfoldable pub cancel_found : JsString → BookingStatus → Action P Booking
  cancel_found id cancelled = throw already_cancelled
  cancel_found id completed = throw already_completed
  cancel_found id _ = write_booking id (P.prisma.booking.update (by_id id) (with_status cancelled))

  unfoldable pub cancel : JsString → Action P Booking
  cancel id = do booking ← find_local id; cancel_found id booking.status
