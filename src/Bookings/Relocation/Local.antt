-- ===== src/Bookings/Relocation/Local.antt =====
-- The relocation inside one shard, src/bookings/bookings.service.ts.
use mathlib.Core.Path.{subst}
use booking_hotel.Prelude.{
  none, ℕ, ◌≡◌, ◌∙◌, true, false, some, [], ◌∷◌, JsString, get_elem?, All, ap, arith, inl, inr, sym,
  refl, str_eq,
}
use booking_hotel.Schema.{Booking, Room, Tables, cancelled}
use booking_hotel.Runtime.Errors.{done, reserve_and_cancel, Result, Result-cases, ok, err}
use booking_hotel.Runtime.Platform.{FillsBooking, In, Platform, PrismaLaws, Query}
use booking_hotel.Runtime.World.{World, Config}
use booking_hotel.Bookings.Reservation.{Reservation, new_booking, overlaps, reserve}
use booking_hotel.Bookings.Reservation.Availability.{Reserved, reserve-Reserved}
use booking_hotel.Bookings.Transactions.{serializable}
use booking_hotel.Bookings.Transactions.Atomicity.{Atomic, serializable-Atomic}
use booking_hotel.Bookings.Service.{invalidate_search, by_id, with_status}
use booking_hotel.Bookings.Service.Writes.{invalidated}
use booking_hotel.Bookings.Relocation.{local_transaction, Relocated, move_locally, relocate_local}
use booking_hotel.Bookings.Relocation.Ends.{changed, with_booking}
use booking_hotel.Sharding.Router.{name_of, write_shard}
use booking_hotel.Sharding.Router.Steps.{Settled, Settled-same, write_shard-Settled}

module _ (P : Platform) (c : Config) (laws : PrismaLaws P.prisma) (id : JsString)
    (d : Reservation) where
  abbrev tables_of : P.prisma.Db → Tables
  tables_of = P.prisma.tables

  -- The booking that takes the place of `id`, made in a room that exists and in which no other
  -- active booking overlaps the dates.
  abbrev pub Replaces : Tables → Booking → Type 0
  Replaces t b =
      (room : Room) × In room t.rooms
      × (str_eq room.id d.room_id ≡ true)
      × All (λ x. overlaps d (some id) x ≡ false) t.bookings
      × All (λ x. str_eq x.id d.id ≡ false) t.bookings
      × FillsBooking (new_booking d room) b

  -- The tables after the move.
  abbrev pub moved_tables : Tables → Booking → Tables
  moved_tables t b = changed (by_id id) cancelled (with_booking t b)

  abbrev Moves : Tables → Result (Booking × Booking) × P.prisma.Db → Type 0
  Moves t (ok m, db') = Replaces t m.0 × (tables_of db' ≡ moved_tables t m.0)
  Moves t (err e, db') = tables_of db' ≡ t

  Reserved-Replaces :
      (start : P.prisma.Db) (b : Booking) (out : Result Booking × P.prisma.Db)
      → out.0 ≡ ok b
      → Reserved P.prisma laws d (some id) start out
      → Replaces (tables_of start) b × (tables_of out.1 ≡ with_booking (tables_of start) b)
  Reserved-Replaces start b (ok b', db1) e (room, member, named, free, fresh, fills, t) =
      let q : b' ≡ b = ground (arith, e) in
      (
        (room, member, named, free, fresh, subst (FillsBooking (new_booking d room)) q fills),
        t ∙ ap (with_booking (tables_of start)) q,
      )
  Reserved-Replaces start b (err x, db1) e h = absurd (ground (arith, e))

  -- One run of the callback that returns.
  move_locally-Moves :
      (start : P.prisma.Db) (m : Booking × Booking)
      → (move_locally P c d id start).0 ≡ ok m
      → Replaces (tables_of start) m.0
        × (tables_of (move_locally P c d id start).1 ≡ moved_tables (tables_of start) m.0)
  move_locally-Moves start m e =
      let first = reserve P.prisma d (some id) start in
      let second = P.prisma.booking.update (by_id id) (with_status cancelled) first.1 in
      elim (Result-cases first.0) [
        | inr (x, r) ↦ absurd (unfold move_locally in ground (arith, r, e))
        | inl (b, r) ↦ elim (Result-cases second.0) [
          | inr (x, q) ↦ absurd (unfold move_locally in ground (arith, r, q, e))
          | inl (p, q) ↦
              let eq : move_locally P c d id start ≡ (ok (b, p), second.1) =
                unfold move_locally in ground (arith, r, q) in
              let same : b ≡ m.0 = ground (arith, eq, e) in
              let (made, t) =
                Reserved-Replaces start b first r
                  (reserve-Reserved P.prisma laws d (some id) start) in
              let (_, _, _, _, t') =
                laws.booking.update_ok (by_id id) (with_status cancelled) first.1 p q in
              let after : tables_of (move_locally P c d id start).1
                  ≡ moved_tables (tables_of start) b =
                ap (λ (o : Result (Booking × Booking) × P.prisma.Db). tables_of o.1) eq
                ∙ t'
                ∙ ap (changed (by_id id) cancelled) t in
              subst
                (λ (x : Booking).
                  Replaces (tables_of start) x
                  × (tables_of (move_locally P c d id start).1 ≡ moved_tables (tables_of start) x))
                same (made, after)
        ]
      ]

  Atomic-Moves :
      (db : P.prisma.Db) (out : Result (Booking × Booking) × P.prisma.Db)
      → Atomic P.prisma (λ _. move_locally P c d id) 4 db out
      → Moves (tables_of db) out
  Atomic-Moves db (ok m, db') (left, start, le, same, ran, t) =
      let (made, after) = move_locally-Moves start m ran in
      subst (λ (tb : Tables). Replaces tb m.0 × (tables_of db' ≡ moved_tables tb m.0)) same
        (made, t ∙ after)
  Atomic-Moves db (err e, db') same = same

  -- How a relocation inside shard `k` with the tables `t` ends.
  abbrev pub LocallyMoved : ℕ → Tables → World P → Result Relocated × World P → Type 0
  LocallyMoved k t w (ok r, w') = Replaces t r.booking × Settled k (moved_tables t r.booking) w w'
  LocallyMoved k t w (err e, w') = Settled k t w w'

  -- With sharding and a client for the shard: a relocation inside a shard makes the new booking, in
  -- a room that exists and is free but for the old booking, and cancels the old one, or changes no
  -- table; no other shard changes.
  pub relocate_local-LocallyMoved :
      (source : ℕ) (w : World P) (db : P.prisma.Db)
      → c.sharded ≡ true
      → get_elem? w.shard_dbs source ≡ some db
      → LocallyMoved source (tables_of db) w (relocate_local P c source id d w)
  relocate_local-LocallyMoved source w db on at =
      let t = tables_of db in
      let start : Settled source t w w = record {
        db = db;
        here = at;
        tables = refl;
        others = λ j ne. refl;
      } in
      let mutation : Query P.prisma.Db (Booking × Booking) =
        serializable P.prisma λ _. move_locally P c d id in
      let call = write_shard P c source mutation w in
      let (db1, same1, s, value, error) = write_shard-Settled P c on source mutation t w w start in
      let moves : Moves t (mutation db1) =
        subst (λ (tb : Tables). Moves tb (mutation db1)) same1
          (Atomic-Moves db1 (mutation db1)
            (serializable-Atomic P.prisma laws (λ _. move_locally P c d id) db1)) in
      let (quiet, same) = invalidated P c call.1 in
      elim (Result-cases call.0) [
        | inl (m, r) ↦
            let (made, after) : Moves t (ok m, (mutation db1).1) =
              subst (λ (q : Result (Booking × Booking)). Moves t (q, (mutation db1).1)) (value m r)
                moves in
            let w2 = (invalidate_search P c call.1).1 in
            let relocated : Relocated = record {
              mode = local_transaction;
              from = name_of P c source;
              to = name_of P c source;
              booking = m.0;
              previous = m.1;
              steps =
                  record {
                    step = reserve_and_cancel;
                    shard = name_of P c source;
                    status = done;
                    detail = none;
                  }
                  ∷ [];
            } in
            let eq : relocate_local P c source id d w ≡ (ok relocated, w2) =
              unfold relocate_local in ground (arith, r, quiet) in
            subst (LocallyMoved source t w) (sym eq) (
              made,
              Settled-same P source (moved_tables t m.0) w call.1 w2 same
                  (subst (λ (tb : Tables). Settled source tb w call.1) after s),
            )
        | inr (e, r) ↦
            let (x, f) = error e r in
            let after : Moves t (err x, (mutation db1).1) =
              subst (λ (q : Result (Booking × Booking)). Moves t (q, (mutation db1).1)) f moves in
            let eq : relocate_local P c source id d w ≡ (err e, call.1) =
              unfold relocate_local in ground (arith, r) in
            subst (LocallyMoved source t w) (sym eq)
              (subst (λ (tb : Tables). Settled source tb w call.1) after s)
      ]
