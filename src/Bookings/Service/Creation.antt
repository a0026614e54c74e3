-- ===== src/Bookings/Service/Creation.antt =====
-- `create` of BookingsService: a new booking on the shard of its room.
use booking_hotel.Bookings.Service.Writes.{then_invalidate}
use booking_hotel.Database.State.{track, mark_down}
use mathlib.Core.Path.{subst}
use booking_hotel.Bookings.Reservation.{reserve, Reservation}
use booking_hotel.Bookings.Reservation.Availability.{NoDoubleBooking, reserve-NoDoubleBooking}
use booking_hotel.Bookings.Transactions.{serialization_retries, serializable}
use booking_hotel.Bookings.Transactions.Atomicity.{Atomic, serializable-Atomic}
use booking_hotel.Bookings.Service.{
  attempt_id, create, reserve_new, CreateBooking, assert_guest_exists,
}
use booking_hotel.Sharding.Router.{writes, annotate_shard, write_shard, for_key, shard_of}
use booking_hotel.Sharding.Router.Isolation.{write_shard-Wrote, run_physical_missing}
use booking_hotel.Database.Router.{read, read_primary, read_degraded}
use booking_hotel.Runtime.Platform.{Platform, Prisma, PrismaLaws, Query}
use booking_hotel.Runtime.World.{on_primary, World, Config}
use booking_hotel.Runtime.Errors.{Result-cases, Result, ok, err}
use booking_hotel.Schema.{pending, Booking}
use booking_hotel.Prelude.{
  ◌+◌, leb, ◌∙◌, sym, ◌==◌, List, ℕ, ◌≡◌, true, some, none, get_elem?, arith, inl, inr,
  Option-cases, JsString, Bool-cases,
}

module _ {P : Platform} where
  -- On every shard that has a client, no two active bookings of one room overlap.
  abbrev pub NoDoubleBookings : World P → Type 0
  NoDoubleBookings w =
      (j : ℕ) (db : P.prisma.Db)
      → get_elem? w.shard_dbs j ≡ some db
      → NoDoubleBooking (P.prisma.tables db).bookings

module _ (D : Prisma) (laws : PrismaLaws D) where
  -- Attempts that reserve, none of which excludes a booking.
  serializable-NoDoubleBooking :
      (d : ℕ → Reservation) (db : D.Db)
      → NoDoubleBooking (D.tables db).bookings
      → NoDoubleBooking (D.tables (serializable D (λ left. reserve D (d left) none) db).1).bookings
  serializable-NoDoubleBooking d db h =
      kept (serializable D (λ left. reserve D (d left) none) db)
        (serializable-Atomic D laws (λ left. reserve D (d left) none) db)
    where
      kept :
          (out : Result Booking × D.Db)
          → Atomic D (λ left. reserve D (d left) none) 4 db out
          → NoDoubleBooking (D.tables out.1).bookings
      kept (ok b, db') (left, start, _, same, _, t) =
          rw t (reserve-NoDoubleBooking D laws (d left) start (rw same h))
      kept (err e, db') same = rw same h

module _ (P : Platform) (c : Config) where
  pub assert_guest_exists-shard_dbs :
      (id : JsString) (w : World P) → (assert_guest_exists P c id w).1.shard_dbs ≡ w.shard_dbs
  unfolding assert_guest_exists read read_primary read_degraded on_primary mark_down track
  assert_guest_exists-shard_dbs id w = ground arith

  pub for_key-local :
      (key : JsString) (w : World P)
      → ((for_key P c key w).0 ≡ ok (shard_of P c key))
        × ((for_key P c key w).1.shard_dbs ≡ w.shard_dbs)
  unfolding for_key annotate_shard
  for_key-local key w = ground arith

  write_shard-kept :
      {A : Type 0} (Inv : P.prisma.Db → Type 0) (index : ℕ) (mutation : Query P.prisma.Db A)
      (w : World P)
      → c.sharded ≡ true
      → ((db : P.prisma.Db) → Inv db → Inv (mutation db).1)
      → ((j : ℕ) (db : P.prisma.Db) → get_elem? w.shard_dbs j ≡ some db → Inv db)
      → (j : ℕ) (db : P.prisma.Db)
      → get_elem? (write_shard P c index mutation w).1.shard_dbs j ≡ some db
      → Inv db
  write_shard-kept Inv index mutation w on keeps h j db at =
      elim (Option-cases (get_elem? w.shard_dbs index)) [
        | inl e ↦
            let gone = run_physical_missing P c index writes mutation w e in
            let same : (write_shard P c index mutation w).1.shard_dbs ≡ w.shard_dbs =
              unfold write_shard in ground (arith, gone) in
            h j db (subst (λ (l : List P.prisma.Db). get_elem? l j ≡ some db) same at)
        | inr (db0, e) ↦
            let wrote = write_shard-Wrote P c index mutation w db0 on e in
            elim (Bool-cases (index == j)) [
              | inl same ↦
                  let q : index ≡ j = ground (arith, same) in
                  let found : (mutation db0).1 ≡ db = ground (arith, wrote.here, at, q) in
                  subst Inv found (keeps db0 (h index db0 e))
              | inr other ↦
                  h j db (sym (wrote.others j (λ q. absurd (ground (arith, other, q)))) ∙ at)
            ]
      ]

module _ (P : Platform) (c : Config) (laws : PrismaLaws P.prisma) (on : c.sharded ≡ true) where
  abbrev KeptFree : P.prisma.Db → Type 0
  KeptFree db = NoDoubleBooking (P.prisma.tables db).bookings

  -- What the part of `create` behind its checks asks of the shard of the room.
  abbrev pub attempts : CreateBooking → ℕ → ℕ → ℕ → ℕ → Reservation
  attempts dto check_in check_out first left = record {
    id = attempt_id P c first dto.room_id left;
    room_id = dto.room_id;
    guest_id = dto.guest_id;
    check_in = check_in;
    check_out = check_out;
    status = pending;
  }

  abbrev pub new_row : CreateBooking → ℕ → ℕ → ℕ → Query P.prisma.Db Booking
  new_row dto check_in check_out first =
      serializable P.prisma
        λ left. reserve P.prisma (attempts dto check_in check_out first left) none

  -- The state in which the write on the shard starts.
  abbrev pub starting : CreateBooking → World P → World P
  starting dto w =
      let w1 = (for_key P c dto.room_id w).1 in
      record w1 { next_uuid = w1.next_uuid + serialization_retries }

  pub reserve_new-shard_dbs :
      (dto : CreateBooking) (check_in check_out : ℕ) (w : World P)
      → (reserve_new P c dto check_in check_out w).1.shard_dbs
        ≡ (write_shard P c
            (shard_of P c dto.room_id)
            (new_row dto check_in check_out w.next_uuid)
            (starting dto w)).1.shard_dbs
  unfolding reserve_new for_key annotate_shard
  reserve_new-shard_dbs dto check_in check_out w =
      let run =
        write_shard P c (shard_of P c dto.room_id) (new_row dto check_in check_out w.next_uuid) in
      (then_invalidate P c run (starting dto w)).1

  reserve_new-NoDoubleBookings :
      (dto : CreateBooking) (check_in check_out : ℕ) (w : World P)
      → NoDoubleBookings w
      → NoDoubleBookings (reserve_new P c dto check_in check_out w).1
  reserve_new-NoDoubleBookings dto check_in check_out w h j db at =
      let mutation = new_row dto check_in check_out w.next_uuid in
      write_shard-kept P c KeptFree (shard_of P c dto.room_id) mutation (starting dto w) on
        (λ start free.
          serializable-NoDoubleBooking P.prisma laws (attempts dto check_in check_out w.next_uuid)
            start free)
        (λ i db' e. h i db' (
          subst (λ (l : List P.prisma.Db). get_elem? l i ≡ some db')
            (for_key-local P c dto.room_id w).1 e))
        j db
        (subst (λ (l : List P.prisma.Db). get_elem? l j ≡ some db)
          (reserve_new-shard_dbs dto check_in check_out w) at)

  -- With sharding, where no shard holds a double booking, none does after `create` of a booking,
  -- whether it succeeds or is refused.
  pub create-NoDoubleBookings :
      (dto : CreateBooking) (w : World P)
      → NoDoubleBookings w
      → NoDoubleBookings (create P c dto w).1
  unfolding create
  create-NoDoubleBookings dto w h j db at =
      let check_in = P.js.date_ms dto.check_in_date in
      let check_out = P.js.date_ms dto.check_out_date in
      let w1 = (assert_guest_exists P c dto.guest_id w).1 in
      let same = assert_guest_exists-shard_dbs P c dto.guest_id w in
      let h1 : NoDoubleBookings w1 =
        λ i db' e. h i db' (subst (λ (l : List P.prisma.Db). get_elem? l i ≡ some db') same e) in
      let stored = reserve_new-NoDoubleBookings dto check_in check_out w1 h1 j db in
      elim (Bool-cases (leb check_out check_in)) [
        | inl reversed ↦ h j db (ground (arith, reversed, at))
        | inr forward ↦ elim (Result-cases (assert_guest_exists P c dto.guest_id w).0) [
          | inl (u, r) ↦ stored (ground (arith, forward, r, at))
          | inr (x, r) ↦ h1 j db (ground (arith, forward, r, at))
        ]
      ]
