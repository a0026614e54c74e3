-- ===== src/Bookings/Service/Lifecycle.antt =====
-- The end of a booking: `cancel` of BookingsService, and the lookup that precedes it.
use booking_hotel.Bookings.Service.Writes.{write_booking-Wrote}
use mathlib.Core.Path.{subst}
use booking_hotel.Prelude.{
  ◌≡◌, ◌≢◌, ℕ, JsString, Option, none, some, true, arith, inl, inr, refl, sym, ap, ◌∙◌, get_elem?,
}
use booking_hotel.Schema.{
  Booking, BookingStatus, Tables, is_active, cancelled, pending, confirmed, completed,
}
use booking_hotel.Runtime.Errors.{Result, Result-cases, ok, err}
use booking_hotel.Runtime.Platform.{Platform, PrismaLaws, In, Query, change}
use booking_hotel.Runtime.World.{World, Config}
use booking_hotel.Database.Router.{strong_read}
use booking_hotel.Sharding.Router.{for_key, shard_of, read_shard, annotate_shard}
use booking_hotel.Sharding.Router.Isolation.{read_shard-Wrote}
use booking_hotel.Bookings.Service.{
  find_local, cancel, cancel_found, write_booking, by_id, with_status, booking_not_found,
}

abbrev pub cancelled_tables : JsString → Tables → Tables
cancelled_tables id t = record t { bookings = change (by_id id) (with_status cancelled) t.bookings }

module _ (P : Platform) (c : Config) (laws : PrismaLaws P.prisma) (on : c.sharded ≡ true)
    (id : JsString) (w : World P) (db : P.prisma.Db)
    (at : get_elem? w.shard_dbs (shard_of P c id) ≡ some db) where
  abbrev tables_of : P.prisma.Db → Tables
  tables_of = P.prisma.tables

  -- The shard of `id` is in a state with the given tables, and every other shard as it was.
  pub record Leaves (t : Tables) (w' : World P) : Type 0 where
    pub db' : P.prisma.Db
    pub here : get_elem? w'.shard_dbs (shard_of P c id) ≡ some db'
    pub tables : tables_of db' ≡ t
    pub others : (j : ℕ) → shard_of P c id ≢ j → get_elem? w'.shard_dbs j ≡ get_elem? w.shard_dbs j

  -- What a lookup by identifier has done by the end.
  abbrev pub Located : Result Booking × World P → Type 0
  Located (ok b, w') = In b (tables_of db).bookings × (by_id id b ≡ true) × Leaves (tables_of db) w'
  Located (err e, w') = Leaves (tables_of db) w'

  abbrev lookup : Query P.prisma.Db (Option Booking)
  lookup = P.prisma.booking.find_unique (by_id id)

  abbrev after_key : World P
  after_key = (for_key P c id w).1

  abbrev reading : Result (Option Booking) × World P
  reading = read_shard P c (shard_of P c id) lookup strong_read after_key

  lookup-Leaves : Leaves (tables_of db) reading.1
  unfolding for_key annotate_shard
  lookup-Leaves =
      let wrote = read_shard-Wrote P c (shard_of P c id) lookup strong_read after_key db on at in
      record {
        db' = (lookup db).1;
        here = wrote.here;
        tables = laws.booking.find_unique_same (by_id id) db;
        others = wrote.others;
      }

  -- With sharding and a client for the shard of `id`: the lookup returns a row of that shard with
  -- that identifier, or throws; it changes no table of that shard, and no other shard.
  pub find_local-Located : Located (find_local P c id w)
  unfolding find_local for_key annotate_shard
  find_local-Located =
      let wrote = read_shard-Wrote P c (shard_of P c id) lookup strong_read after_key db on at in
      elim (Result-cases reading.0) [
        | inl (none, r) ↦
            let eq : find_local P c id w ≡ (err (booking_not_found id), reading.1) =
              ground (arith, r) in
            subst Located (sym eq) lookup-Leaves
        | inl (some b, r) ↦
            let eq : find_local P c id w ≡ (ok b, reading.1) = ground (arith, r) in
            let (member, named) =
              laws.booking.find_unique_ok (by_id id) db (some b) (wrote.value (some b) r) in
            subst Located (sym eq) (member, named, lookup-Leaves)
        | inr (e, r) ↦
            let eq : find_local P c id w ≡ (err e, reading.1) = ground (arith, r) in
            subst Located (sym eq) lookup-Leaves
      ]

  -- What `cancel` has done by the end.
  abbrev pub Ends : Result Booking × World P → Type 0
  Ends (ok b, w') =
      (old : Booking) × In old (tables_of db).bookings
      × (by_id id old ≡ true)
      × (is_active old.status ≡ true)
      × (b.status ≡ cancelled)
      × Leaves (cancelled_tables id (tables_of db)) w'
  Ends (err e, w') = Leaves (tables_of db) w'

  cancel_write-Ends :
      (old : Booking) (w1 : World P)
      → In old (tables_of db).bookings
      → by_id id old ≡ true
      → is_active old.status ≡ true
      → Leaves (tables_of db) w1
      → Ends (write_booking P c id (P.prisma.booking.update (by_id id) (with_status cancelled)) w1)
  cancel_write-Ends old w1 member named active l =
      let mutation : Query P.prisma.Db Booking =
        P.prisma.booking.update (by_id id) (with_status cancelled) in
      let wrote = write_booking-Wrote P c id mutation w1 l.db' on l.here in
      let call = write_booking P c id mutation w1 in
      elim (Result-cases call.0) [
        | inl (b, r) ↦
            let (row, _, _, fixed, t) =
              laws.booking.update_ok (by_id id) (with_status cancelled) l.db' b (wrote.value b r) in
            subst (λ (o : Result Booking). Ends (o, call.1)) (sym r)
              (
                old,
                member,
                named,
                active,
                ap (λ (x : Booking). x.status) fixed,
                record {
                  db' = (mutation l.db').1;
                  here = wrote.here;
                  tables = t ∙ ap (cancelled_tables id) l.tables;
                  others = λ j ne. wrote.others j ne ∙ l.others j ne;
                },
              )
        | inr (x, r) ↦
            let (y, failed_with) = wrote.error x r in
            subst (λ (o : Result Booking). Ends (o, call.1)) (sym r)
              (record {
                db' = (mutation l.db').1;
                here = wrote.here;
                tables =
                    laws.booking.update_err (by_id id) (with_status cancelled) l.db' y failed_with
                    ∙ l.tables;
                others = λ j ne. wrote.others j ne ∙ l.others j ne;
              })
      ]

  cancel_found-Ends :
      (old : Booking) (status : BookingStatus) (w1 : World P)
      → old.status ≡ status
      → In old (tables_of db).bookings
      → by_id id old ≡ true
      → Leaves (tables_of db) w1
      → Ends (cancel_found P c id status w1)
  unfolding cancel_found
  cancel_found-Ends old cancelled w1 s member named l = l
  cancel_found-Ends old completed w1 s member named l = l
  cancel_found-Ends old pending w1 s member named l =
      cancel_write-Ends old w1 member named (ap is_active s) l
  cancel_found-Ends old confirmed w1 s member named l =
      cancel_write-Ends old w1 member named (ap is_active s) l

  -- With sharding and a client for the booking's shard: cancelling succeeds only for a booking
  -- that was pending or confirmed; rows with its identifier then have the status cancelled, no
  -- other row changes, and no other shard. Where `cancel` throws, no table of any shard has
  -- changed.
  pub cancel-Ends : Ends (cancel P c id w)
  unfolding cancel
  cancel-Ends =
      let call = find_local P c id w in
      elim (Result-cases call.0) [
        | inl (b, r) ↦
            let (member, named, l) : Located (ok b, call.1) =
              subst (λ (o : Result Booking). Located (o, call.1)) r find_local-Located in
            let eq : cancel P c id w ≡ cancel_found P c id b.status call.1 = ground (arith, r) in
            subst Ends (sym eq) (cancel_found-Ends b b.status call.1 refl member named l)
        | inr (e, r) ↦
            let l : Located (err e, call.1) =
              subst (λ (o : Result Booking). Located (o, call.1)) r find_local-Located in
            let eq : cancel P c id w ≡ (err e, call.1) = ground (arith, r) in subst Ends (sym eq) l
      ]
