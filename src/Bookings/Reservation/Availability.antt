-- ===== src/Bookings/Reservation/Availability.antt =====
-- The test of a free room in `reserve` of src/bookings/bookings.service.ts, and double bookings.
use mathlib.Core.Path.{subst}
use booking_hotel.Runtime.Errors.{Result-cases, err, ok, Result}
use booking_hotel.Schema.{Tables, Room, is_active, Booking}
use booking_hotel.Runtime.Queries.{◌>>=◌, ◌>>◌, bind_ok, bind_err}
use booking_hotel.Prelude.{
  arith, sym, none, some, some, ap, inr, inl, ◌∙◌, true, All-concat, ltb, ◌++◌, [], false, ◌&&◌,
  JsString, ◌≡◌, str_eq, ◌∷◌, All, Option, Bool, List,
}
use booking_hotel.Bookings.Reservation.{
  require_room, require_free, new_booking, overlaps, reserve, Reservation,
}
use booking_hotel.Runtime.Platform.{Prisma, PrismaLaws, Query, In, FillsBooking}

-- Two active bookings of one room with a night in common.
abbrev pub clash : Booking → Booking → Bool
clash a b =
    str_eq a.room_id b.room_id
    && is_active a.status
    && is_active b.status
    && ltb a.check_in_date b.check_out_date
    && ltb b.check_in_date a.check_out_date

-- No two rows of the table clash.
abbrev pub NoDoubleBooking : List Booking → Type 0
NoDoubleBooking [] = Unit
NoDoubleBooking (b ∷ bs) = All (λ x. clash b x ≡ false) bs × NoDoubleBooking bs

pub NoDoubleBooking-append :
    (bs : List Booking) (b : Booking)
    → NoDoubleBooking bs
    → All (λ x. clash x b ≡ false) bs
    → NoDoubleBooking (bs ++ b ∷ [])
NoDoubleBooking-append [] b h k = (tt, tt)
NoDoubleBooking-append (x ∷ bs) b (h, hs) (k, ks) =
    (All-concat (λ y. clash x y ≡ false) bs b h k, NoDoubleBooking-append bs b hs ks)

module _ (D : Prisma) (laws : PrismaLaws D) where
  -- What `reserve` has done by the end, on each branch.
  abbrev pub Reserved : Reservation → Option JsString → D.Db → Result Booking × D.Db → Type 0
  Reserved d exclude db (ok b, db') =
      (room : Room) × In room (D.tables db).rooms
      × (str_eq room.id d.room_id ≡ true)
      × All (λ x. overlaps d exclude x ≡ false) (D.tables db).bookings
      × All (λ x. str_eq x.id d.id ≡ false) (D.tables db).bookings
      × FillsBooking (new_booking d room) b
      × (D.tables db' ≡ record (D.tables db) { bookings = (D.tables db).bookings ++ b ∷ [] })
  Reserved d exclude db (err e, db') = D.tables db' ≡ D.tables db

  -- `reserve` behind the lookup of the room.
  abbrev afterwards : Reservation → Option JsString → Room → Query D.Db Booking
  afterwards d exclude room = do
    overlapping ← D.booking.find_first (overlaps d exclude)
    require_free D overlapping
    D.booking.create (new_booking d room)

  create-Reserved :
      (d : Reservation) (exclude : Option JsString) (db start : D.Db) (room : Room)
      → In room (D.tables db).rooms
      → str_eq room.id d.room_id ≡ true
      → All (λ x. overlaps d exclude x ≡ false) (D.tables db).bookings
      → D.tables start ≡ D.tables db
      → Reserved d exclude db (D.booking.create (new_booking d room) start)
  create-Reserved d exclude db start room member found free same =
      let made = D.booking.create (new_booking d room) start in
      elim (Result-cases made.0) as (λ _. Reserved d exclude db made) [
        | inl (b, e) ↦
            let (fills, out) = laws.booking.create_ok (new_booking d room) start b e in
            let out' : D.tables made.1
                ≡ record (D.tables db) { bookings = (D.tables db).bookings ++ b ∷ [] } =
              out ∙ ap (λ (t : Tables). record t { bookings = t.bookings ++ b ∷ [] }) same in
            let fresh = laws.booking_key (new_booking d room) start b e in
            rw e (
              room,
              member,
              found,
              free,
              subst (λ (t : Tables). All (λ x. str_eq x.id d.id ≡ false) t.bookings) same fresh,
              fills,
              out',
            )
        | inr (x, e) ↦ rw e (laws.booking.create_err (new_booking d room) start x e ∙ same)
      ]

  afterwards-Reserved :
      (d : Reservation) (exclude : Option JsString) (db db1 : D.Db) (room : Room)
      → In room (D.tables db).rooms
      → str_eq room.id d.room_id ≡ true
      → D.tables db1 ≡ D.tables db
      → Reserved d exclude db (afterwards d exclude room db1)
  afterwards-Reserved d exclude db db1 room member found same1 =
      let look = D.booking.find_first (overlaps d exclude) in
      let db2 = (look db1).1 in
      let same2 : D.tables db2 ≡ D.tables db =
        laws.booking.find_first_same (overlaps d exclude) db1 ∙ same1 in
      let rest =
        λ (o : Option Booking). (require_free D o >> D.booking.create (new_booking d room)) in
      elim (Result-cases (look db1).0) [
        | inr (x, f) ↦ subst (Reserved d exclude db) (sym (bind_err look rest db1 x f)) same2
        | inl (some b, f) ↦
            subst (Reserved d exclude db) (sym (bind_ok look rest db1 (some b) f)) same2
        | inl (none, f) ↦
            let free = laws.booking.find_first_ok (overlaps d exclude) db1 none f in
            subst (Reserved d exclude db) (sym (bind_ok look rest db1 none f)) (
              create-Reserved d exclude db db2 room member found
                (subst (λ (t : Tables). All (λ x. overlaps d exclude x ≡ false) t.bookings) same1
                  free)
                same2)
      ]

  -- `reserve` on each branch, in the terms of its own test and row.
  pub reserve-Reserved :
      (d : Reservation) (exclude : Option JsString) (db : D.Db)
      → Reserved d exclude db (reserve D d exclude db)
  unfolding reserve
  reserve-Reserved d exclude db =
      let by_id : Room → Bool = λ room. str_eq room.id d.room_id in
      let db1 = (D.room.find_unique by_id db).1 in
      let same1 = laws.room.find_unique_same by_id db in
      let rest = λ (found : Option Room).
        (require_room D d.room_id found >>= λ room. afterwards d exclude room) in
      elim (Result-cases (D.room.find_unique by_id db).0) [
        | inr (x, e) ↦
            subst (Reserved d exclude db) (sym (bind_err (D.room.find_unique by_id) rest db x e))
              same1
        | inl (none, e) ↦
            subst (Reserved d exclude db) (sym (bind_ok (D.room.find_unique by_id) rest db none e))
              same1
        | inl (some room, e) ↦
            let (member, found) = laws.room.find_unique_ok by_id db (some room) e in
            subst (Reserved d exclude db)
              (sym (bind_ok (D.room.find_unique by_id) rest db (some room) e))
              (afterwards-Reserved d exclude db db1 room member found same1)
      ]

  -- Made with no booking excluded, the new row clashes with none that was there.
  free-no_clash :
      (d : Reservation) (room : Room) (b : Booking) (bs : List Booking)
      → FillsBooking (new_booking d room) b
      → All (λ x. overlaps d none x ≡ false) bs
      → All (λ x. clash x b ≡ false) bs
  unfolding overlaps
  free-no_clash d room b [] fills free = tt
  free-no_clash d room b (x ∷ bs) fills (f, free) = (
    ground (arith, fills.room_id, fills.check_in_date, fills.check_out_date),
    free-no_clash d room b bs fills free,
  )

  -- Without an excluded booking, `reserve` keeps the bookings of the shard free of double bookings,
  -- whether it makes one or throws.
  pub reserve-NoDoubleBooking :
      (d : Reservation) (db : D.Db)
      → NoDoubleBooking (D.tables db).bookings
      → NoDoubleBooking (D.tables (reserve D d none db).1).bookings
  reserve-NoDoubleBooking d db h = keep_free (reserve D d none db) (reserve-Reserved d none db)
    where
      keep_free :
          (out : Result Booking × D.Db)
          → Reserved d none db out
          → NoDoubleBooking (D.tables out.1).bookings
      keep_free (ok b, db') (room, _, _, free, _, fills, t) = rw t (
          NoDoubleBooking-append (D.tables db).bookings b h
            (free-no_clash d room b (D.tables db).bookings fills free))
      keep_free (err e, db') same = rw same h
