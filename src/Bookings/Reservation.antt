-- ===== src/Bookings/Reservation.antt =====
-- `reserve` of src/bookings/bookings.service.ts: the availability test and the new row, inside a
-- transaction of one shard.
pub mod Availability
pub mod Stay
mod Tests
use booking_hotel.Runtime.Errors.{http, Error}
use booking_hotel.Prelude.{
  ◌/◌, [], ◌+◌, ◌-◌, not, ◌*◌, ◌++◌, ltb, ◌∷◌, leb, none, ◌&&◌, true, some, str_eq, if◌then◌else◌,
  Bool, ℕ, JsString, js, Option,
}
use booking_hotel.Runtime.Queries.{pure, throw, ◌>>=◌, ◌>>◌}
use booking_hotel.Runtime.Platform.{Prisma, Query, NewBooking}
use booking_hotel.Schema.{Booking, Room, BookingStatus, is_active}
use booking_hotel.Schema.Amount.{ℤ, pos, neg}

pub record Reservation : Type 0 where
  pub id : JsString
  pub room_id : JsString
  pub guest_id : JsString
  pub check_in : ℕ
  pub check_out : ℕ
  pub status : BookingStatus

-- `id: excludeBookingId ? { not: excludeBookingId } : undefined`; the empty text is falsy.
abbrev pub not_excluded : Option JsString → JsString → Bool
not_excluded none id = true
not_excluded (some []) id = true
not_excluded (some (x ∷ s)) id = not (str_eq id (x ∷ s))

-- The `where` of the availability test.
unfoldable pub overlaps : Reservation → Option JsString → Booking → Bool
overlaps d exclude b =
    str_eq b.room_id d.room_id
    && not_excluded exclude b.id
    && is_active b.status
    && ltb b.check_in_date d.check_out
    && ltb d.check_in b.check_out_date

abbrev pub day_ms : ℕ
day_ms = 86400000

-- `pricePerNight * Math.ceil((checkOut - checkIn) / day)`, also where the dates are reversed.
unfoldable pub price_of_stay : ℕ → ℕ → ℕ → ℤ
price_of_stay price check_in check_out =
    if leb check_in check_out
    then pos (price * ((check_out - check_in + (day_ms - 1)) / day_ms))
    else neg (price * ((check_in - check_out) / day_ms))

unfoldable pub room_not_found : JsString → Error
unfolding js
room_not_found id = http 404 (js "Room with id " ++ (id ++ js " not found"))

unfoldable pub already_booked : Error
unfolding js
already_booked = http 409 (js "Room is already booked for the selected dates")

abbrev pub new_booking : Reservation → Room → NewBooking
new_booking d room = record {
  id = d.id;
  room_id = d.room_id;
  guest_id = d.guest_id;
  check_in_date = d.check_in;
  check_out_date = d.check_out;
  total_price = price_of_stay room.price_per_night d.check_in d.check_out;
  status = d.status;
}

module _ (D : Prisma) where
  abbrev require_room : JsString → Option Room → Query D.Db Room
  require_room id none = throw (room_not_found id)
  require_room id (some room) = pure room

  abbrev require_free : Option Booking → Query D.Db (Unit {0})
  require_free none = pure tt
  require_free (some b) = throw already_booked

  unfoldable pub reserve : Reservation → Option JsString → Query D.Db Booking
  reserve d exclude = do
    found ← D.room.find_unique (λ room. str_eq room.id d.room_id)
    room ← require_room d.room_id found
    overlapping ← D.booking.find_first (overlaps d exclude)
    require_free overlapping
    D.booking.create (new_booking d room)
