-- ===== src/Bookings/Ledger/Invariant.antt =====
-- Valid tables of bookings, and the moves of the ledger.
use mathlib.Core.Path.{subst}
use booking_hotel.Bookings.Relocation.Ends.{changed}
use booking_hotel.Runtime.Platform.{FillsBooking}
use booking_hotel.Prelude.{
  not, ap, All-concat, sym, str_eq, JsString, arith, false, ◌≡◌, none, List, All, Bool,
}
use booking_hotel.Bookings.Reservation.{new_booking, Reservation, overlaps}
use booking_hotel.Bookings.Reservation.Availability.{NoDoubleBooking-append, clash, NoDoubleBooking}
use booking_hotel.Bookings.Ledger.{◌⟶◌, ◌⟶*◌, book, end_booking, settle, drop_booking, here, next}
use booking_hotel.Bookings.Ledger.Rows.{
  All-keep, DistinctIds-keep, NoDoubleBooking-keep, All-map, All-change, DistinctIds-change,
  NoDoubleBooking-change, NoRevival, Forward, DistinctIds, DistinctIds-append,
}
use booking_hotel.Schema.{is_active, cancelled, Room, BookingStatus, Booking, Tables}

-- No two active bookings of a room overlap, no two rows share an identifier, and each stay ends
-- after it begins.
pub record Valid (t : Tables) : Type 0 where
  pub free : NoDoubleBooking t.bookings
  pub distinct : DistinctIds t.bookings
  pub forward : All Forward t.bookings

Valid-changed :
    (p : Booking → Bool) (s : BookingStatus) (t : Tables)
    → NoRevival p s t.bookings
    → Valid t
    → Valid (changed p s t)
Valid-changed p s t k v = record {
  free = NoDoubleBooking-change p s t.bookings k v.free;
  distinct = DistinctIds-change p s t.bookings v.distinct;
  forward = All-change Forward p s t.bookings (λ b f. f) v.forward;
}

-- A row that `reserve` made clashes with none that was there.
made_apart :
    (d : Reservation) (room : Room) (b : Booking) (bs : List Booking)
    → FillsBooking (new_booking d room) b
    → All (λ x. overlaps d none x ≡ false) bs
    → All (λ x. clash x b ≡ false) bs
unfolding overlaps
made_apart d room b bs fills =
    All-map
      (λ x free. ground (arith, free, fills.room_id, fills.check_in_date, fills.check_out_date)) bs

-- Every move of the ledger keeps a valid table valid.
pub ⟶-Valid : {t u : Tables} → t ⟶ u → Valid t → Valid u
⟶-Valid {t} (book d b (forward, active) (room, member, named, fills, free, fresh)) v = record {
  free = NoDoubleBooking-append t.bookings b v.free (made_apart d room b t.bookings fills free);
  distinct =
      DistinctIds-append t.bookings b v.distinct (
        subst (λ (i : JsString). All (λ x. str_eq x.id i ≡ false) t.bookings) (sym fills.id) fresh);
  forward =
      All-concat Forward t.bookings b v.forward
        (ground (arith, fills.check_in_date, fills.check_out_date, forward));
}
⟶-Valid {t} (end_booking id p picks actives) v =
    Valid-changed p cancelled t (All-map (λ b h e s. h e) t.bookings actives) v
⟶-Valid {t} (settle id p s picks active pendings) v =
    Valid-changed p s t (All-map (λ b h e a. ap is_active (h e)) t.bookings pendings) v
⟶-Valid {t} (drop_booking id p picks) v = record {
  free = NoDoubleBooking-keep (λ b. not (p b)) t.bookings v.free;
  distinct = DistinctIds-keep (λ b. not (p b)) t.bookings v.distinct;
  forward = All-keep Forward (λ b. not (p b)) t.bookings v.forward;
}

-- In every table that the ledger reaches from a valid one, no two active bookings of one room
-- overlap, no two rows share an identifier, and each stay ends after it begins.
pub ⟶*-Valid : {t u : Tables} → t ⟶* u → Valid t → Valid u
⟶*-Valid here v = v
⟶*-Valid (next m h) v = ⟶*-Valid h (⟶-Valid m v)
