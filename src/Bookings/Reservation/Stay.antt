-- ===== src/Bookings/Reservation/Stay.antt =====
-- What a stay costs and which stays leave each other free, in `reserve` of
-- src/bookings/bookings.service.ts.
use booking_hotel.Prelude.{
  ap, sym, ◌≡◌, ◌≢◌, ◌⊎◌, ◌≤◌, ◌<◌, ◌+◌, ◌-◌, ◌*◌, ◌/◌, ◌++◌, ℕ, true, false, Option, none, some,
  List, [], ◌∷◌, All, JsString, str_eq, str_eq→eq, str_eq_refl, leb, inl, inr, arith, refl,
  Bool-cases,
}
use mathlib.Core.Path.{subst}
use booking_hotel.Schema.{Booking, Room, is_active}
use booking_hotel.Schema.Amount.{ℤ, pos, neg}
use booking_hotel.Runtime.Errors.{Result, ok, err}
use booking_hotel.Runtime.Platform.{Prisma, PrismaLaws, In}
use booking_hotel.Bookings.Reservation.{
  Reservation, reserve, overlaps, not_excluded, price_of_stay, day_ms,
}
use booking_hotel.Bookings.Reservation.Availability.{Reserved, reserve-Reserved}

-- `nights` is the number of days of 86,400,000 ms that have begun between the two instants.
abbrev pub Nights : ℕ → ℕ → ℕ → Type 0
Nights check_in check_out nights =
    (check_out ≤ check_in + nights * 86400000)
    × (check_in + nights * 86400000 < check_out + 86400000)

-- The price of a stay, and of dates that are reversed, for which whole days count off.
pub data Priced (price check_in check_out : ℕ) (total : ℤ) : Type 0 where
  stay :
      (nights : ℕ)
      → check_in ≤ check_out
      → Nights check_in check_out nights
      → total ≡ pos (price * nights)
      → Priced price check_in check_out total
  reversed :
      (days : ℕ)
      → check_out < check_in
      → check_out + days * 86400000 ≤ check_in
      → check_in < check_out + (days + 1) * 86400000
      → total ≡ neg (price * days)
      → Priced price check_in check_out total

price_of_stay-Priced :
    (price check_in check_out : ℕ)
    → Priced price check_in check_out (price_of_stay price check_in check_out)
unfolding price_of_stay
price_of_stay-Priced price check_in check_out = elim (Bool-cases (leb check_in check_out)) [
  | inl forth ↦
      let le : check_in ≤ check_out = ground (arith, forth) in
      stay ((check_out - check_in + (day_ms - 1)) / day_ms) le
        (omega (arith, le), omega (arith, le)) (rw forth refl)
  | inr back ↦
      let lt : check_out < check_in = ground (arith, back) in
      reversed ((check_in - check_out) / day_ms) lt (omega (arith, lt)) (omega (arith, lt))
        (rw back refl)
]

-- The booking `x` lets `d` have the room: it is of another room, it has ended, it is the one that is
-- excluded, or one of the two stays ends before the other begins. The empty text excludes none.
abbrev pub MakesWay : Reservation → Option JsString → Booking → Type 0
MakesWay d exclude x =
    x.room_id ≡ d.room_id
    → is_active x.status ≡ true
    → (exclude ≡ some x.id → x.id ≡ [])
    → (d.check_out ≤ x.check_in_date) ⊎ (x.check_out_date ≤ d.check_in)

not_excluded-kept :
    (exclude : Option JsString) (id : JsString)
    → (exclude ≡ some id → id ≡ [])
    → not_excluded exclude id ≡ true
not_excluded-kept none id h = refl
not_excluded-kept (some []) id h = refl
not_excluded-kept (some (y ∷ s)) id h = elim (Bool-cases (str_eq id (y ∷ s))) [
  | inl same ↦
      let q : id ≡ y ∷ s = str_eq→eq id (y ∷ s) same in
      let gone : id ≡ [] = h (ap some (sym q)) in absurd (ground (arith, q, gone))
  | inr other ↦ ground (arith, other)
]

overlaps-MakesWay :
    (d : Reservation) (exclude : Option JsString) (x : Booking)
    → overlaps d exclude x ≡ false
    → MakesWay d exclude x
unfolding overlaps
overlaps-MakesWay d exclude x e room active other =
    let here : str_eq x.room_id d.room_id ≡ true = rw room (str_eq_refl d.room_id) in
    let counted = not_excluded-kept exclude x.id other in ground (arith, e, here, active, counted)

All-MakesWay :
    (d : Reservation) (exclude : Option JsString) (rows : List Booking)
    → All (λ x. overlaps d exclude x ≡ false) rows
    → All (MakesWay d exclude) rows
All-MakesWay d exclude [] h = tt
All-MakesWay d exclude (x ∷ rows) (h, hs) =
    (overlaps-MakesWay d exclude x h, All-MakesWay d exclude rows hs)

-- The row that a stay in the room makes.
pub record Stays (d : Reservation) (room : Room) (b : Booking) : Type 0 where
  pub id : b.id ≡ d.id
  pub room_id : b.room_id ≡ d.room_id
  pub guest_id : b.guest_id ≡ d.guest_id
  pub check_in_date : b.check_in_date ≡ d.check_in
  pub check_out_date : b.check_out_date ≡ d.check_out
  pub status : b.status ≡ d.status
  pub total_price : Priced room.price_per_night d.check_in d.check_out b.total_price

module _ (D : Prisma) (laws : PrismaLaws D) (d : Reservation) (exclude : Option JsString)
    (db : D.Db) where
  -- What has been booked by the end.
  abbrev pub Booked : Result Booking × D.Db → Type 0
  Booked (ok b, db') =
      (room : Room) × In room (D.tables db).rooms
      × (room.id ≡ d.room_id)
      × All (MakesWay d exclude) (D.tables db).bookings
      × All (λ x. x.id ≢ d.id) (D.tables db).bookings
      × Stays d room b
      × (D.tables db' ≡ record (D.tables db) { bookings = (D.tables db).bookings ++ b ∷ [] })
  Booked (err e, db') = D.tables db' ≡ D.tables db

  Reserved-Booked : (out : Result Booking × D.Db) → Reserved D laws d exclude db out → Booked out
  Reserved-Booked (err e, db') same = same
  Reserved-Booked (ok b, db') (room, member, named, free, fresh, fills, t) = (
    room,
    member,
    str_eq→eq room.id d.room_id named,
    All-MakesWay d exclude (D.tables db).bookings free,
    All-apart (D.tables db).bookings fresh,
    record {
      id = fills.id;
      room_id = fills.room_id;
      guest_id = fills.guest_id;
      check_in_date = fills.check_in_date;
      check_out_date = fills.check_out_date;
      status = fills.status;
      total_price =
          subst (Priced room.price_per_night d.check_in d.check_out) (sym fills.total_price)
            (price_of_stay-Priced room.price_per_night d.check_in d.check_out);
    },
    t,
  )
    where
      All-apart :
          (rows : List Booking)
          → All (λ x. str_eq x.id d.id ≡ false) rows
          → All (λ x. x.id ≢ d.id) rows
      All-apart [] h = tt
      All-apart (x ∷ rows) (h, hs) =
          (λ q. absurd (ground (arith, h, str_eq_refl d.id, q)), All-apart rows hs)

  -- `reserve` makes a booking only if the room exists, every active booking of the room but the
  -- excluded one ends before the stay begins or begins after it ends, and no row has its
  -- identifier; the row has the columns asked for and is all that changes, and it costs the price
  -- of the room for each night that has begun, or minus that for each whole day where the dates
  -- are reversed. Where `reserve` throws, nothing changes.
  pub reserve-Booked : Booked (reserve D d exclude db)
  reserve-Booked = Reserved-Booked (reserve D d exclude db) (reserve-Reserved D laws d exclude db)
