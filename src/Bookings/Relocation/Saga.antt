-- ===== src/Bookings/Relocation/Saga.antt =====
-- The outcome of a relocation between two shards, src/bookings/bookings.service.ts.
use booking_hotel.Bookings.Transactions.Atomicity.{serializable-Atomic, Atomic}
use booking_hotel.Bookings.Transactions.{serializable}
use booking_hotel.Bookings.Reservation.Availability.{reserve-Reserved, Reserved}
use booking_hotel.Bookings.Relocation.Compensation.{abort_saga-Ended, finish_saga-Ended}
use booking_hotel.Bookings.Relocation.Cancellation.{Cancelled, cancel_original-Cancelled}
use booking_hotel.Bookings.Relocation.Ends.{
  nothing_reserved, ended, changed, Ended, Made, with_booking, Holds, Setting,
}
use mathlib.Core.Path.{subst}
use booking_hotel.Sharding.Router.Isolation.{write_shard-Wrote}
use booking_hotel.Sharding.Router.{write_shard, name_of}
use booking_hotel.Bookings.Relocation.{
  relocate_saga, after_reserve, cancel_original, finish_saga, abort_saga, is_active_original,
  a_step, aborted, Relocated,
}
use booking_hotel.Bookings.Reservation.{new_booking, reserve}
use booking_hotel.Runtime.World.{World, Config}
use booking_hotel.Schema.{cancelled, Booking, Tables}
use booking_hotel.Runtime.Platform.{FillsBooking, Query, Platform}
use booking_hotel.Runtime.Errors.{
  done, Result-cases, t2_cancel, Result, ok, err, message, failed, t1_reserve,
}
use booking_hotel.Prelude.{
  none, ◌∙◌, sym, ap, ◌<◌, refl, inr, arith, inl, keep, length, ◌≡◌, Bool, [], ◌∷◌, ◌++◌,
}

module _ {P : Platform} {c : Config} (g : Setting P c) where
  open g use {laws, on, source, target, apart, source_tables, target_tables, id, d, final}

  abbrev tables_of : P.prisma.Db → Tables
  tables_of = P.prisma.tables

  after_reserve-Ended :
      (original created : Booking) (simulate_failure : Bool) (w : World P) (sdb tdb : P.prisma.Db)
      → original.status ≡ final
      → Holds source w sdb
      → Holds target w tdb
      → tables_of sdb ≡ source_tables
      → tables_of tdb ≡ with_booking target_tables created
      → Made d target_tables created
      → Ended g (after_reserve P c source target id original simulate_failure created w)
  unfolding after_reserve
  after_reserve-Ended original created simulate_failure w sdb tdb was hs ht ss tt' named =
      let from = name_of P c source in
      let steps = a_step t1_reserve (name_of P c target) done created.id ∷ [] in
      let call = cancel_original P c source id simulate_failure w in
      let done_so_far = cancel_original-Cancelled g simulate_failure w sdb tdb hs ht in
      elim (Result-cases call.0) [
        | inl (u, r) ↦
            let (sdb', hs', ht', changes, some_row) =
              subst (Cancelled g sdb tdb) (ap (λ (q : Result (Unit {0})). (q, call.1)) r)
                done_so_far in
            let steps' = steps ++ a_step t2_cancel from done id ∷ [] in
            let eq : after_reserve P c source target id original simulate_failure created w
                ≡ finish_saga P c source target original created steps' call.1 =
              ground arith in
            subst (Ended g) (sym eq) (
              finish_saga-Ended g original created steps' call.1 sdb' tdb was hs' ht'
                (subst (λ (t : Tables). 0 < length (keep (is_active_original id) t.bookings)) ss
                  some_row)
                (changes ∙ ap (changed (is_active_original id) cancelled) ss) tt' named)
        | inr (x, r) ↦
            let (sdb', hs', ht', same) =
              subst (Cancelled g sdb tdb) (ap (λ (q : Result (Unit {0})). (q, call.1)) r)
                done_so_far in
            let eq : after_reserve P c source target id original simulate_failure created w
                ≡ abort_saga P c source target created.id steps x call.1 =
              ground arith in
            subst (Ended g) (sym eq)
              (abort_saga-Ended g created steps x call.1 sdb' tdb hs' ht' (same ∙ ss) tt' named)
      ]

  -- What T1 has done on the target shard.
  abbrev Reserving : P.prisma.Db → Result Booking × P.prisma.Db → Type 0
  Reserving tdb (ok b, db') =
      Made d (tables_of tdb) b × (tables_of db' ≡ with_booking (tables_of tdb) b)
  Reserving tdb (err e, db') = tables_of db' ≡ tables_of tdb

  abbrev t1 : Query P.prisma.Db Booking
  t1 = serializable P.prisma λ _. reserve P.prisma d none

  Reserved-Reserving :
      (tdb start : P.prisma.Db) (out : Result Booking × P.prisma.Db) (b : Booking)
      (db' : P.prisma.Db)
      → tables_of start ≡ tables_of tdb
      → out.0 ≡ ok b
      → tables_of db' ≡ tables_of out.1
      → Reserved P.prisma laws d none start out
      → Reserving tdb (ok b, db')
  Reserved-Reserving tdb start (ok b', db1) b db' same q t
        (room, member, named, free, fresh, fills, t1) =
      let eb : b' ≡ b = cc in
      subst (λ (tb : Tables). Made d tb b × (tables_of db' ≡ with_booking tb b)) same
        (
          (room, member, named, subst (FillsBooking (new_booking d room)) eb fills, free, fresh),
          t ∙ t1 ∙ ap (with_booking (tables_of start)) eb,
        )
  Reserved-Reserving tdb start (err e, db1) b db' same q t h = absurd (ground arith)

  Atomic-Reserving :
      (tdb : P.prisma.Db) (out : Result Booking × P.prisma.Db)
      → Atomic P.prisma (λ _. reserve P.prisma d none) 4 tdb out
      → Reserving tdb out
  Atomic-Reserving tdb (ok b, db') (left, start, le, same, ran, t) =
      Reserved-Reserving tdb start (reserve P.prisma d none start) b db' same ran t
        (reserve-Reserved P.prisma laws d none start)
  Atomic-Reserving tdb (err e, db') same = same

  -- With sharding, a relocation between two different shards that have clients ends in one of five
  -- states, whatever the two nodes reject: nothing has changed (T1 failed); the old booking stands
  -- and the reservation is cancelled (T2 failed); the old booking stands and so does the
  -- reservation, which the steps report (T2 and the compensation failed); the old booking is
  -- cancelled and the new one still pending (T3 failed); the old booking, which was active, is
  -- cancelled and the new one has its status. The new booking is made only in a room that exists
  -- and is free, so the old booking is never cancelled without a new one.
  pub relocate_saga-Ended :
      (original : Booking) (simulate_failure : Bool) (w : World P) (sdb tdb : P.prisma.Db)
      → original.status ≡ final
      → Holds source w sdb
      → Holds target w tdb
      → tables_of sdb ≡ source_tables
      → tables_of tdb ≡ target_tables
      → Ended g (relocate_saga P c source target id original d simulate_failure w)
  unfolding relocate_saga
  relocate_saga-Ended original simulate_failure w sdb tdb was hs ht ss tt' =
      let from = name_of P c source in
      let to = name_of P c target in
      let call = write_shard P c target t1 w in
      let wrote = write_shard-Wrote P c target t1 w tdb on ht in
      let hs1 : Holds source call.1 sdb = wrote.others source (λ q. apart (sym q)) ∙ hs in
      let reserved =
        Atomic-Reserving tdb (t1 tdb)
          (serializable-Atomic P.prisma laws (λ _. reserve P.prisma d none) tdb) in
      elim (Result-cases call.0) [
        | inl (b, r) ↦
            let (made, t) : Reserving tdb (ok b, (t1 tdb).1) =
              subst (λ (q : Result Booking). Reserving tdb (q, (t1 tdb).1)) (wrote.value b r)
                reserved in
            let eq : relocate_saga P c source target id original d simulate_failure w
                ≡ after_reserve P c source target id original simulate_failure b call.1 =
              ground arith in
            subst (Ended g) (sym eq) (
              after_reserve-Ended original b simulate_failure call.1 sdb (t1 tdb).1 was hs1
                wrote.here ss (t ∙ ap (λ (tb : Tables). with_booking tb b) tt')
                (subst (λ (tb : Tables). Made d tb b) tt' made))
        | inr (e, r) ↦
            let (x, rx) = wrote.error e r in
            let t : tables_of (t1 tdb).1 ≡ tables_of tdb =
              subst (λ (q : Result Booking). Reserving tdb (q, (t1 tdb).1)) rx reserved in
            let out : Result Relocated =
              err (aborted (a_step t1_reserve to failed (message e) ∷ []) e from to) in
            let eq : relocate_saga P c source target id original d simulate_failure w
                ≡ (out, call.1) =
              ground arith in
            subst (Ended g) (sym eq) (
              ended g out call.1 call.1 sdb (t1 tdb).1 hs1 wrote.here refl
                (nothing_reserved e refl ss (t ∙ tt')))
      ]
