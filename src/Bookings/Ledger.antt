-- ===== src/Bookings/Ledger.antt =====
-- What BookingsService (src/bookings/bookings.service.ts) promises of the bookings that one shard
-- holds: the moves of an abstract ledger, in which a request is one move, two, or none. A PATCH is
-- not among them, since `update` writes rooms and dates without the tests of the others.
pub mod Rows
pub mod Invariant
pub mod Shards
pub mod Stays
pub mod Moves
pub mod Relocating
use booking_hotel.Prelude.{◌≡◌, Bool, true, false, not, some, All, JsString, keep, str_eq, ltb}
use booking_hotel.Schema.{Booking, BookingStatus, Tables, is_active, pending, cancelled}
use booking_hotel.Bookings.Reservation.{Reservation}
use booking_hotel.Bookings.Relocation.Ends.{Made, changed, with_booking}

-- A test that picks no row but those with the identifier.
abbrev pub Picks : JsString → (Booking → Bool) → Type 0
Picks id p = (b : Booking) → p b ≡ true → str_eq b.id id ≡ true

-- A stay that ends after it begins, in a status that holds the room.
abbrev pub Sound : Reservation → Type 0
Sound d = (ltb d.check_in d.check_out ≡ true) × (is_active d.status ≡ true)

infix 40 ◌⟶◌ ◌⟶*◌
pub data ◌⟶◌ (t : Tables) : Tables → Type 0 where
  -- A booking is made in a room that exists and is free, under an identifier that is new.
  book : (d : Reservation) (b : Booking) → Sound d → Made d t b → t ⟶ with_booking t b
  -- An active booking ends.
  end_booking :
      (id : JsString) (p : Booking → Bool)
      → Picks id p
      → All (λ b. p b ≡ true → is_active b.status ≡ true) t.bookings
      → t ⟶ changed p cancelled t
  -- A reservation gets the status of the booking that it replaces.
  settle :
      (id : JsString) (p : Booking → Bool) (s : BookingStatus)
      → Picks id p
      → is_active s ≡ true
      → All (λ b. p b ≡ true → b.status ≡ pending) t.bookings
      → t ⟶ changed p s t
  -- A booking is deleted.
  drop_booking :
      (id : JsString) (p : Booking → Bool)
      → Picks id p
      → t ⟶ record t { bookings = keep (λ b. not (p b)) t.bookings }

pub data ◌⟶*◌ : Tables → Tables → Type 0 where
  here : {t : Tables} → t ⟶* t
  next : {t u v : Tables} → t ⟶ u → u ⟶* v → t ⟶* v

pub one_move : {t u : Tables} → t ⟶ u → t ⟶* u
one_move m = next m here

pub follow : {t u v : Tables} → t ⟶* u → u ⟶* v → t ⟶* v
follow here k = k
follow (next m h) k = next m (follow h k)
