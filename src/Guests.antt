-- ===== src/Guests.antt =====
-- GuestsService, src/guests/guests.service.ts: the guests lie on the global node, their bookings on
-- the shards.
pub mod Deletion
pub mod History
mod Tests
use booking_hotel.Prelude.{
  or_old, false, ℕ, ◌+◌, ltb, leb, Bool, true, Option, none, some, List, [], ◌∷◌, ◌++◌, JsString,
  js, str_eq, if◌then◌else◌,
}
use booking_hotel.Schema.{Guest, Booking}
use booking_hotel.Runtime.Errors.{Error, http}
use booking_hotel.Runtime.Platform.{Platform, NewGuest}
use booking_hotel.Runtime.World.{World, Action, Config, pure, throw, ◌>>=◌, ◌>>◌}
use booking_hotel.Database.Router.{Consistency, eventual_read, strong_read, read, write_with}
use booking_hotel.Sharding.Router.{FanOutPart, fan_out, fan_out_list}

pub record UpdateGuest : Type 0 where
  pub full_name : Option JsString
  pub email : Option JsString
  pub phone : Option JsString

unfoldable pub email_taken : JsString → Error
unfolding js
email_taken email = http 409 (js "Guest with email " ++ (email ++ js " already exists"))

unfoldable pub guest_missing : JsString → Error
unfolding js
guest_missing id = http 404 (js "Guest with id " ++ (id ++ js " not found"))

unfoldable pub has_bookings : JsString → Error
unfolding js
has_bookings n = http 409 (js "Guest has " ++ (n ++ js " booking(s) and cannot be deleted"))

abbrev or_old_phone : Option JsString → Option JsString → Option JsString
or_old_phone none old = old
or_old_phone (some s) old = some s

unfoldable pub apply_guest : UpdateGuest → Guest → Guest
apply_guest dto g = record g {
  full_name = or_old dto.full_name g.full_name;
  email = or_old dto.email g.email;
  phone = or_old_phone dto.phone g.phone;
}

abbrev pub guest_with : JsString → Guest → Bool
guest_with id g = str_eq g.id id

abbrev pub booked_by : JsString → Booking → Bool
booked_by id b = str_eq b.guest_id id

-- `parts.reduce((total, part) => total + part.result, 0)`
unfoldable pub total_count : List (FanOutPart ℕ) → ℕ
total_count [] = 0
total_count (p ∷ ps) = p.result + total_count ps

-- `bookings.sort((a, b) => b.createdAt - a.createdAt)`, which is stable.
unfoldable pub insert_newest : Booking → List Booking → List Booking
insert_newest b [] = b ∷ []
insert_newest b (x ∷ xs) =
    let rest = insert_newest b xs in if leb x.created_at b.created_at then b ∷ x ∷ xs else x ∷ rest

unfoldable pub newest_first : List Booking → List Booking
newest_first [] = []
newest_first (b ∷ bs) = insert_newest b (newest_first bs)

module _ (P : Platform) (c : Config) where
  abbrev require_new : JsString → Option Guest → Action P (Unit {0})
  require_new email none = pure tt
  require_new email (some g) = throw (email_taken email)

  abbrev require_known : JsString → Option Guest → Action P Guest
  require_known id none = throw (guest_missing id)
  require_known id (some g) = pure g

  unfoldable pub create : NewGuest → Action P Guest
  create dto = do
    existing ← read P c (P.prisma.guest.find_unique (λ g. str_eq g.email dto.email)) strong_read
    require_new dto.email existing
    write_with P c (P.prisma.guest.create dto)

  unfoldable pub find_all : Action P (List Guest)
  find_all = read P c (P.prisma.guest.find_many (λ _ _. true)) eventual_read

  unfoldable pub find_one : JsString → Consistency → Action P Guest
  find_one id consistency = do
    found ← read P c (P.prisma.guest.find_unique (guest_with id)) consistency
    require_known id found

  unfoldable pub update : JsString → UpdateGuest → Action P Guest
  update id dto = do
    find_one id strong_read
    write_with P c (P.prisma.guest.update (guest_with id) (apply_guest dto))

  -- `remove` behind the fan-out.
  unfoldable pub remove_counted : JsString → ℕ → Action P Guest
  remove_counted id bookings =
      if ltb 0 bookings
      then throw (has_bookings (P.js.decimal bookings))
      else write_with P c (P.prisma.guest.delete (guest_with id))

  unfoldable pub remove : JsString → Action P Guest
  remove id = do
    find_one id strong_read
    counts ← fan_out P c (P.prisma.booking.count (booked_by id)) false strong_read
    remove_counted id (total_count counts.parts)

  unfoldable pub find_bookings : JsString → Action P (List Booking)
  find_bookings id = do
    find_one id eventual_read
    bookings ←
        fan_out_list P c (P.prisma.booking.find_many (λ _ b. booked_by id b)) true eventual_read
    pure (newest_first bookings)
