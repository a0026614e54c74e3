-- ===== src/Bookings/Ledger/Stays.antt =====
-- The moves of the ledger that `create`, `cancel` and `remove` make
-- (src/bookings/bookings.service.ts).
use booking_hotel.Sharding.Router.Isolation.{run_physical_missing}
use booking_hotel.Bookings.Service.Writes.{then_invalidate}
use booking_hotel.Bookings.Service.Creation.{
  reserve_new-shard_dbs, new_row, starting, attempts, assert_guest_exists-shard_dbs, for_key-local,
}
use booking_hotel.Bookings.Transactions.Atomicity.{serializable-Atomic, Atomic}
use mathlib.Core.Path.{subst}
use booking_hotel.Bookings.Reservation.Availability.{reserve-Reserved, Reserved}
use booking_hotel.Runtime.Errors.{plain, Result-cases, err, ok, Result}
use booking_hotel.Database.Router.{strong_read}
use booking_hotel.Bookings.Ledger.Rows.{All-In, All-map, DistinctIds}
use booking_hotel.Bookings.Transactions.{serializable}
use booking_hotel.Sharding.Router.{
  reads, annotate_shard, write_shard, shard_of, read_shard, for_key,
}
use booking_hotel.Bookings.Service.Lifecycle.{cancel-Ends, Ends}
use booking_hotel.Bookings.Service.{remove, write_booking, cancel, create}
use booking_hotel.Bookings.Reservation.{reserve, Reservation}
use booking_hotel.Schema.{Tables, is_active, Booking}
use booking_hotel.Bookings.Service.{
  reserve_new, by_id, assert_guest_exists, find_local, CreateBooking,
}
use booking_hotel.Bookings.Ledger.Shards.{
  Advances-one, write_shard-Advances, read_shard-Advances, Advances-same, Advances-then, Advances,
  Held, AllValid,
}
use booking_hotel.Bookings.Ledger.{end_booking, drop_booking, book, one_move, Sound, ◌⟶*◌, here}
use booking_hotel.Prelude.{
  Option-cases, get_elem?, refl, some, leb, Bool-cases, [], inr, str_eq_refl, arith, ◌∙◌, ap,
  str_eq→eq, sym, false, str_eq, inl, ◌∷◌, All, none, ltb, List, ◌≡◌, true, ℕ, JsString,
}
use booking_hotel.Runtime.Platform.{In, Platform, PrismaLaws}
use booking_hotel.Runtime.World.{World, Config}

-- Where one of the rows that share an identifier with it is active, a test for the identifier
-- picks active rows only.
pub DistinctIds-only :
    (id : JsString) (old : Booking) (bs : List Booking)
    → DistinctIds bs
    → In old bs
    → by_id id old ≡ true
    → is_active old.status ≡ true
    → All (λ b. by_id id b ≡ true → is_active b.status ≡ true) bs
DistinctIds-only id old [] h member named active = absurd member
DistinctIds-only id old (b ∷ bs) (h, hs) (inl q) named active =
    (λ e. cc, All-map (λ x apart e. absurd (ids_apart x apart e)) bs h)
  where
    ids_apart : (x : Booking) → str_eq b.id x.id ≡ false → by_id id x ≡ true → ⊥
    ids_apart x apart e =
        let p = str_eq→eq x.id id e in
        let p' = str_eq→eq old.id id named in
        let r : b.id ≡ x.id = ap (λ (y : Booking). y.id) (sym q) ∙ p' ∙ sym p in
        ground (arith, apart, r, str_eq_refl x.id)
DistinctIds-only id old (b ∷ bs) (h, hs) (inr member) named active =
    (λ e. absurd (ids_apart e), DistinctIds-only id old bs hs member named active)
  where
    ids_apart : by_id id b ≡ true → ⊥
    ids_apart e =
        let p = str_eq→eq b.id id e in
        let p' = str_eq→eq old.id id named in
        let apart = All-In (λ x. str_eq b.id x.id ≡ false) bs old h member in
        ground (arith, apart, p, p', str_eq_refl id)

module _ (P : Platform) (c : Config) (laws : PrismaLaws P.prisma) (on : c.sharded ≡ true) where
  -- A reservation that is made, whatever attempt of the transaction makes it.
  reserving_moves :
      (d : ℕ → Reservation) (db : P.prisma.Db)
      → ((left : ℕ) → Sound (d left))
      → P.prisma.tables db
        ⟶* P.prisma.tables (serializable P.prisma (λ left. reserve P.prisma (d left) none) db).1
  reserving_moves d db sound =
      moves (serializable P.prisma (λ left. reserve P.prisma (d left) none) db)
        (serializable-Atomic P.prisma laws (λ left. reserve P.prisma (d left) none) db)
    where
      ran_moves :
          (left : ℕ) (start : P.prisma.Db) (out : Result Booking × P.prisma.Db)
          → Reserved P.prisma laws (d left) none start out
          → P.prisma.tables start ⟶* P.prisma.tables out.1
      ran_moves left start (ok b, db1) (room, member, named, free, fresh, fills, t) =
          subst (λ (u : Tables). P.prisma.tables start ⟶* u) (sym t)
            (one_move (book (d left) b (sound left) (room, member, named, fills, free, fresh)))
      ran_moves left start (err e, db1) same =
          subst (λ (u : Tables). P.prisma.tables start ⟶* u) (sym same) here

      moves :
          (out : Result Booking × P.prisma.Db)
          → Atomic P.prisma (λ left. reserve P.prisma (d left) none) 4 db out
          → P.prisma.tables db ⟶* P.prisma.tables out.1
      moves (ok b, db') (left, start, _, same, _, t) =
          subst (λ (u : Tables). u ⟶* P.prisma.tables db') same
            (subst (λ (u : Tables). P.prisma.tables start ⟶* u) (sym t)
              (ran_moves left start (reserve P.prisma (d left) none start)
                (reserve-Reserved P.prisma laws (d left) none start)))
      moves (err e, db') same = subst (λ (u : Tables). P.prisma.tables db ⟶* u) (sym same) here

  reserve_new-Advances :
      (dto : CreateBooking) (check_in check_out : ℕ) (w : World P)
      → ltb check_in check_out ≡ true
      → Advances w (reserve_new P c dto check_in check_out w).1
  reserve_new-Advances dto check_in check_out w forward =
      let d = attempts P c laws on dto check_in check_out w.next_uuid in
      let w1 = starting P c laws on dto w in
      let mutation = new_row P c laws on dto check_in check_out w.next_uuid in
      let k = shard_of P c dto.room_id in
      let call = write_shard P c k mutation w1 in
      Advances-then w w1 (reserve_new P c dto check_in check_out w).1
        (Advances-same w w1 (for_key-local P c dto.room_id w).1)
        (Advances-then w1 call.1 (reserve_new P c dto check_in check_out w).1
          (write_shard-Advances P c on k mutation w1
            (λ db at. reserving_moves d db (λ left. (forward, refl))))
          (Advances-same call.1 (reserve_new P c dto check_in check_out w).1
            (reserve_new-shard_dbs P c laws on dto check_in check_out w)))

  pub create-Advances : (dto : CreateBooking) (w : World P) → Advances w (create P c dto w).1
  create-Advances dto w =
      let check_in = P.js.date_ms dto.check_in_date in
      let check_out = P.js.date_ms dto.check_out_date in
      let call = assert_guest_exists P c dto.guest_id w in
      let same = assert_guest_exists-shard_dbs P c dto.guest_id w in
      elim (Bool-cases (leb check_out check_in)) [
        | inl reversed ↦
            Advances-same w (create P c dto w).1 (unfold create in ground (arith, reversed))
        | inr forward ↦ elim (Result-cases call.0) [
          | inr (x, r) ↦
              Advances-same w (create P c dto w).1
                (unfold create in ground (arith, forward, r, same))
          | inl (u, r) ↦
              let eq : create P c dto w ≡ reserve_new P c dto check_in check_out call.1 =
                unfold create in ground (arith, forward, r) in
              subst (λ (o : Result Booking × World P). Advances w o.1) (sym eq)
                (Advances-then w call.1 (reserve_new P c dto check_in check_out call.1).1
                  (Advances-same w call.1 same)
                  (reserve_new-Advances dto check_in check_out call.1 (ground (arith, forward))))
        ]
      ]

  pub find_local-Advances : (id : JsString) (w : World P) → Advances w (find_local P c id w).1
  find_local-Advances id w =
      let w1 = (for_key P c id w).1 in
      let lookup = P.prisma.booking.find_unique (by_id id) in
      let call = read_shard P c (shard_of P c id) lookup strong_read w1 in
      let moved = Advances-then w w1 call.1 (Advances-same w w1 (for_key-local P c id w).1) (
        read_shard-Advances P c on (shard_of P c id) lookup strong_read w1
          (laws.booking.find_unique_same (by_id id))) in
      let eq : (find_local P c id w).1.shard_dbs ≡ call.1.shard_dbs = elim (Result-cases call.0) [
        | inl (none, r) ↦ unfold find_local for_key annotate_shard in ground (arith, r)
        | inl (some b, r) ↦ unfold find_local for_key annotate_shard in ground (arith, r)
        | inr (e, r) ↦ unfold find_local for_key annotate_shard in ground (arith, r)
      ] in
      Advances-then w call.1 (find_local P c id w).1 moved
        (Advances-same call.1 (find_local P c id w).1 eq)

  pub find_local_missing :
      (id : JsString) (w : World P)
      → get_elem? w.shard_dbs (shard_of P c id) ≡ none
      → ((find_local P c id w).0 ≡ err (plain []))
        × ((find_local P c id w).1.shard_dbs ≡ w.shard_dbs)
  find_local_missing id w e =
      let w1 = (for_key P c id w).1 in
      let lookup = P.prisma.booking.find_unique (by_id id) in
      let e1 : get_elem? w1.shard_dbs (shard_of P c id) ≡ none =
        unfold for_key annotate_shard in ground (arith, e) in
      let gone = run_physical_missing P c (shard_of P c id) reads lookup w1 e1 in
      let eq : read_shard P c (shard_of P c id) lookup strong_read w1 ≡ (err (plain []), w1) =
        unfold read_shard in ground (arith, gone) in
      unfold find_local for_key annotate_shard in ground (arith, eq)

  pub cancel-Advances : (id : JsString) (w : World P) → AllValid w → Advances w (cancel P c id w).1
  cancel-Advances id w v = elim (Option-cases (get_elem? w.shard_dbs (shard_of P c id))) [
    | inl e ↦
        let (gone, same) = find_local_missing id w e in
        Advances-same w (cancel P c id w).1 (unfold cancel in ground (arith, gone, same))
    | inr (db, at) ↦ ended db at (cancel P c id w) (cancel-Ends P c laws on id w db at)
  ]
    where
      ended :
          (db : P.prisma.Db) (at : Held w (shard_of P c id) db) (out : Result Booking × World P)
          → Ends P c laws on id w db at out
          → Advances w out.1
      ended db at (ok b, w') (old, member, named, active, _, l) =
          Advances-one w w' (shard_of P c id) db l.db' at l.here
            (subst (λ (u : Tables). P.prisma.tables db ⟶* u) (sym l.tables)
              (one_move (
                end_booking id (by_id id) (λ b e. e)
                  (DistinctIds-only id old (P.prisma.tables db).bookings
                    (v (shard_of P c id) db at).distinct member named active))))
            l.others
      ended db at (err e, w') l =
          Advances-one w w' (shard_of P c id) db l.db' at l.here
            (subst (λ (u : Tables). P.prisma.tables db ⟶* u) (sym l.tables) here) l.others

  delete_moves :
      (id : JsString) (db : P.prisma.Db)
      → P.prisma.tables db ⟶* P.prisma.tables (P.prisma.booking.delete (by_id id) db).1
  delete_moves id db =
      let call = P.prisma.booking.delete (by_id id) db in
      elim (Result-cases call.0) [
        | inl (b, r) ↦
            let (_, _, t) = laws.booking.delete_ok (by_id id) db b r in
            subst (λ (u : Tables). P.prisma.tables db ⟶* u) (sym t)
              (one_move (drop_booking id (by_id id) (λ b e. e)))
        | inr (x, r) ↦
            subst (λ (u : Tables). P.prisma.tables db ⟶* u)
              (sym (laws.booking.delete_err (by_id id) db x r)) here
      ]

  pub remove-Advances : (id : JsString) (w : World P) → Advances w (remove P c id w).1
  remove-Advances id w =
      let call = find_local P c id w in
      let found = find_local-Advances id w in
      elim (Result-cases call.0) [
        | inr (x, r) ↦
            Advances-then w call.1 (remove P c id w).1 found
              (Advances-same call.1 (remove P c id w).1 (unfold remove in ground (arith, r)))
        | inl (b, r) ↦
            let mutation = P.prisma.booking.delete (by_id id) in
            let w1 = (for_key P c id call.1).1 in
            let run = write_shard P c (shard_of P c id) mutation in
            let (_, kept) = then_invalidate P c run w1 in
            let eq : (remove P c id w).1.shard_dbs ≡ (run w1).1.shard_dbs =
              unfold remove write_booking for_key annotate_shard in ground (arith, r, kept) in
            Advances-then w call.1 (remove P c id w).1 found (
              Advances-then call.1 w1 (remove P c id w).1
                (Advances-same call.1 w1 (for_key-local P c id call.1).1)
                (Advances-then w1 (run w1).1 (remove P c id w).1
                  (write_shard-Advances P c on (shard_of P c id) mutation w1
                    (λ db at. delete_moves id db))
                  (Advances-same (run w1).1 (remove P c id w).1 eq)))
      ]
