-- ===== src/Runtime/Memory.antt =====
-- A database, a cache and a runtime in memory, for the examples: a node is its tables, no client
-- loses its connection, and Redis is a list of keys with their values, which never expire.
mod Model
use booking_hotel.Runtime.Memory.Model.{
  memory_model, memory_laws, memory_create_free, any-false-All,
}
use mathlib.Core.Path.{subst}
use booking_hotel.Schema.{Tables, Hotel, Room, Guest, Booking}
use booking_hotel.Runtime.Errors.{Error, Result, ok, err, known_request}
use booking_hotel.Runtime.Platform.{
  Query, Delegate, DelegateLaws, Finds, In, change, NewHotel, NewRoom, NewGuest, NewBooking,
  FillsHotel, FillsRoom, FillsGuest, FillsBooking, put_hotels, put_rooms, put_guests, put_bookings,
  Prisma, PrismaLaws, Redis, Js, Platform,
}
use booking_hotel.Prelude.{
  sym, ℕ, ◌+◌, ◌≡◌, ◌↔◌, Bool, true, false, not, Option, none, some, List, [], ◌∷◌, ◌++◌, JsString,
  keep, length, if◌then◌else◌, inl, inr, refl, arith, Bool-cases, str_eq, any,
}

abbrev memory_hotel : NewHotel → Hotel
memory_hotel d = record {
  id = d.id;
  name = d.name;
  address = d.address;
  city = d.city;
  rating = 0;
  created_at = 0;
}

abbrev memory_room : NewRoom → Room
memory_room d = record {
  id = d.id;
  hotel_id = d.hotel_id;
  room_number = d.room_number;
  type = d.type;
  price_per_night = d.price_per_night;
  capacity = d.capacity;
  created_at = 0;
}

abbrev memory_guest : NewGuest → Guest
memory_guest d = record {
  id = d.email;
  full_name = d.full_name;
  email = d.email;
  phone = d.phone;
  created_at = 0;
}

abbrev memory_booking : NewBooking → Booking
memory_booking d = record {
  id = d.id;
  room_id = d.room_id;
  guest_id = d.guest_id;
  check_in_date = d.check_in_date;
  check_out_date = d.check_out_date;
  status = d.status;
  total_price = d.total_price;
  created_at = 0;
}

abbrev settled : {A : Type 0} → Result A → Tables → Tables → Tables
settled (ok a) after before = after
settled (err e) after before = before

abbrev memory_transaction : (A : Type 0) → Query Tables A → Query Tables A
memory_transaction A fn t = let (r, t') = fn t in (r, settled r t' t)

abbrev pub memory_prisma : Prisma
memory_prisma = record {
  Db = Tables;
  tables = λ t. t;
  hotel = memory_model (λ t. t.hotels) put_hotels memory_hotel (λ d r. str_eq r.id d.id);
  room = memory_model (λ t. t.rooms) put_rooms memory_room (λ d r. str_eq r.id d.id);
  guest = memory_model (λ t. t.guests) put_guests memory_guest (λ d r. str_eq r.email d.email);
  booking = memory_model (λ t. t.bookings) put_bookings memory_booking (λ d r. str_eq r.id d.id);
  transaction = memory_transaction;
  select_one = λ t. (ok tt, t);
}

pub memory_prisma_laws : PrismaLaws memory_prisma
memory_prisma_laws = record {
  hotel =
      memory_laws (λ t. t.hotels) put_hotels memory_hotel (λ d r. str_eq r.id d.id) FillsHotel
        λ d. record { id = refl; name = refl; address = refl; city = refl };
  room =
      memory_laws (λ t. t.rooms) put_rooms memory_room (λ d r. str_eq r.id d.id) FillsRoom
        λ d. record {
          id = refl;
          hotel_id = refl;
          room_number = refl;
          type = refl;
          price_per_night = refl;
          capacity = refl;
        };
  guest =
      memory_laws (λ t. t.guests) put_guests memory_guest (λ d r. str_eq r.email d.email) FillsGuest
        λ d. record { full_name = refl; email = refl; phone = refl };
  booking =
      memory_laws (λ t. t.bookings) put_bookings memory_booking (λ d r. str_eq r.id d.id)
        FillsBooking
        λ d. record {
          id = refl;
          room_id = refl;
          guest_id = refl;
          check_in_date = refl;
          check_out_date = refl;
          total_price = refl;
          status = refl;
        };
  booking_key = λ d t r e.
      any-false-All (λ b. str_eq b.id d.id) t.bookings
        (memory_create_free (λ t. t.bookings) put_bookings memory_booking (λ d b. str_eq b.id d.id)
          d t (any (λ b. str_eq b.id d.id) t.bookings) r e);
  transaction_ok = λ A fn t a e. (t, refl, e, ground (arith, e));
  transaction_err = λ A fn t x e. ground (arith, e);
}

-- The keys of the cache, the oldest value first where a key was set twice.
abbrev pub Entries : Type 0
Entries = List (JsString × JsString)

abbrev pub entry : JsString → Entries → Option JsString
entry k [] = none
entry k ((j, v) ∷ m) = if str_eq j k then some v else entry k m

abbrev pub without : JsString → Entries → Entries
without k m = keep (λ e. not (str_eq e.0 k)) m

abbrev pub put_entry : JsString → JsString → Entries → Entries
put_entry k v m = (k, v) ∷ without k m

abbrev pub number_of : Option JsString → ℕ
number_of none = 0
number_of (some []) = 0
number_of (some (n ∷ s)) = n

abbrev presence : Option JsString → ℕ
presence none = 0
presence (some v) = 1

-- A number is stored as one unit.
abbrev pub memory_redis : Redis
memory_redis = record {
  Client = Entries;
  is_ready = λ m. true;
  live = λ m k. entry k m;
  get = λ k m. (ok (entry k m), m);
  set_ex = λ k v ttl m. (ok tt, put_entry k v m);
  set_px = λ k v ttl m. (ok tt, put_entry k v m);
  del = λ ks m. (ok 0, keep (λ e. not (any (str_eq e.0) ks)) m);
  incr = λ k m. let n = number_of (entry k m) + 1 in (ok n, put_entry k (n ∷ []) m);
  exists = λ k m. (ok (presence (entry k m)), m);
}

-- A date is one unit, its number of days; a number is written as one unit.
abbrev pub memory_js : Js
memory_js = record {
  date_ms = λ s. number_of (some s);
  to_lower_case = λ s. s;
  uuid = λ n. 48 ∷ 48 ∷ 48 ∷ 48 ∷ n ∷ [];
  random = λ n. 0;
  decimal = λ n. n ∷ [];
  number_or_zero = λ s. number_of (some s);
  sha1 = λ s. s;
}

abbrev pub memory : Platform
memory = record { prisma = memory_prisma; redis = memory_redis; js = memory_js }
