-- ===== src/Bookings/Ledger/Relocating.antt =====
-- `relocate` of BookingsService (src/bookings/bookings.service.ts) as a whole: its guards, the move
-- inside a shard and the saga between two.
use booking_hotel.Bookings.Service.Lifecycle.{find_local-Located, Located}
use booking_hotel.Bookings.Relocation.Frame.{relocate_saga-Spared}
use booking_hotel.Bookings.Relocation.Saga.{relocate_saga-Ended}
use booking_hotel.Bookings.Relocation.Ends.{Setting}
use mathlib.Core.Path.{subst}
use booking_hotel.Sharding.Router.Isolation.{run_physical_missing}
use booking_hotel.Bookings.Transactions.{serializable}
use booking_hotel.Runtime.Errors.{plain, err, Result, Result-cases, ok}
use booking_hotel.Sharding.Key.{bucket_of, id_in_bucket}
use booking_hotel.Bookings.Ledger.{Sound}
use booking_hotel.Bookings.Ledger.Rows.{Forward, All-In}
use booking_hotel.Bookings.Service.Creation.{for_key-local}
use booking_hotel.Bookings.Reservation.{reserve, Reservation}
use booking_hotel.Sharding.Router.{name_of, write_shard, writes, shard_of, child_id, for_key}
use booking_hotel.Schema.{Tables, is_active, pending, Booking}
use booking_hotel.Bookings.Ledger.Moves.{relocate_local-Advances, saga_moves}
use booking_hotel.Bookings.Ledger.Stays.{find_local-Advances, find_local_missing}
use booking_hotel.Bookings.Ledger.Shards.{
  Advances-two, Advances-Valid, Advances-same, Advances-then, Advances, Held, AllValid,
}
use booking_hotel.Bookings.Service.{by_id, find_local}
use booking_hotel.Bookings.Relocation.{
  relocate, relocate_found, relocate_local, relocate_saga, Relocated, RelocateBooking,
  new_reservation,
}
use booking_hotel.Prelude.{
  [], refl, sym, ◌==◌, str_eq, none, inr, arith, inl, suc, get_elem?, not, ◌&&◌, Option-cases,
  Bool-cases, ◌≢◌, Bool, ◌≡◌, true, ℕ, JsString,
}
use booking_hotel.Runtime.Platform.{In, Platform, PrismaLaws}
use booking_hotel.Runtime.World.{random_uuid, World, Config}

module _ (P : Platform) (c : Config) (laws : PrismaLaws P.prisma) (on : c.sharded ≡ true) where
  relocate_saga-Advances :
      (source target : ℕ) (id : JsString) (d : Reservation) (original : Booking)
      (simulate_failure : Bool) (w : World P) (sdb : P.prisma.Db)
      → source ≢ target
      → Held w source sdb
      → Sound d
      → d.status ≡ pending
      → is_active original.status ≡ true
      → Advances w (relocate_saga P c source target id original d simulate_failure w).1
  relocate_saga-Advances source target id d original simulate_failure w sdb apart hs sound waits
        active =
      let out = relocate_saga P c source target id original d simulate_failure w in
      elim (Option-cases (get_elem? w.shard_dbs target)) [
        | inl e ↦
            let t1 = serializable P.prisma λ _. reserve P.prisma d none in
            let gone = run_physical_missing P c target writes t1 w e in
            let eq : write_shard P c target t1 w ≡ (err (plain []), w) =
              unfold write_shard in ground (arith, gone) in
            Advances-same w out.1 (unfold relocate_saga in ground (arith, eq))
        | inr (tdb, ht) ↦
            let g : Setting P c = record {
              laws = laws;
              on = on;
              source = source;
              target = target;
              apart = apart;
              source_tables = P.prisma.tables sdb;
              target_tables = P.prisma.tables tdb;
              id = id;
              d = d;
              waits = waits;
              final = original.status;
            } in
            let ended =
              relocate_saga-Ended g original simulate_failure w sdb tdb refl hs ht refl refl in
            let (from_source, from_target) =
              saga_moves P c laws on
                (record {
                  source = P.prisma.tables sdb;
                  target = P.prisma.tables tdb;
                  source' = P.prisma.tables ended.source_db;
                  target' = P.prisma.tables ended.target_db;
                })
                id d original.status (name_of P c source) (name_of P c target) out.0 sound waits
                active ended.end in
            Advances-two w out.1 source target sdb ended.source_db tdb ended.target_db hs
              ended.at_source from_source ht ended.at_target from_target
              (λ j ne ne'.
                relocate_saga-Spared P c on j source target ne ne' id original d simulate_failure w)
      ]

  relocate_found-Advances :
      (source target : ℕ) (id : JsString) (dto : RelocateBooking) (original : Booking) (w : World P)
      (db : P.prisma.Db)
      → Held w source db
      → AllValid w
      → In original (P.prisma.tables db).bookings
      → by_id id original ≡ true
      → Advances w (relocate_found P c source target id dto original w).1
  relocate_found-Advances source target id dto original w db at v member named =
      let out = relocate_found P c source target id dto original w in
      let call = child_id P c dto.room_id w in
      let forward =
        All-In Forward (P.prisma.tables db).bookings original (v source db at).forward member in
      let new_id = id_in_bucket (bucket_of dto.room_id) (P.js.uuid w.next_uuid) in
      let drawn : call ≡ (ok new_id, record w { next_uuid = suc w.next_uuid }) =
        unfold child_id random_uuid in refl in
      let w1 : World P = record w { next_uuid = suc w.next_uuid } in
      elim (Bool-cases (is_active original.status)) [
        | inr ended ↦ Advances-same w out.1 (unfold relocate_found in ground (arith, ended))
        | inl active ↦ elim (Bool-cases (str_eq original.room_id dto.room_id)) [
          | inl same ↦ Advances-same w out.1 (unfold relocate_found in ground (arith, active, same))
          | inr differs ↦ elim (Bool-cases (source == target)) [
            | inl local ↦
                let d = new_reservation new_id dto.room_id original original.status in
                let eq : out ≡ relocate_local P c source id d w1 =
                  unfold relocate_found in ground (arith, active, differs, local, drawn) in
                subst (λ (o : Result Relocated × World P). Advances w o.1) (sym eq)
                  (relocate_local-Advances P c laws on source id d original w1 db at
                    (forward, active) v member named active)
            | inr away ↦
                let d = new_reservation new_id dto.room_id original pending in
                let eq : out
                    ≡ relocate_saga P c source target id original d dto.simulate_failure w1 =
                  unfold relocate_found in ground (arith, active, differs, away, drawn) in
                subst (λ (o : Result Relocated × World P). Advances w o.1) (sym eq)
                  (relocate_saga-Advances source target id d original dto.simulate_failure w1 db
                    (λ q. absurd (ground (arith, away, q))) at (forward, refl) refl active)
          ]
        ]
      ]

  pub relocate-Advances :
      (id : JsString) (dto : RelocateBooking) (w : World P)
      → AllValid w
      → Advances w (relocate P c id dto w).1
  relocate-Advances id dto w v =
      let out = relocate P c id dto w in
      let w1 = (for_key P c id w).1 in
      let w2 = (for_key P c dto.room_id w1).1 in
      let call = find_local P c id w2 in
      let start : Advances w w2 =
        Advances-then w w1 w2 (Advances-same w w1 (for_key-local P c id w).1)
          (Advances-same w1 w2 (for_key-local P c dto.room_id w1).1) in
      let looked = Advances-then w w2 call.1 start (find_local-Advances P c laws on id w2) in
      let v1 = Advances-Valid w w2 start v in
      let v2 = Advances-Valid w call.1 looked v in
      elim (Bool-cases (dto.simulate_failure && not c.saga_fault_injection)) [
        | inl refused ↦ Advances-same w out.1 (unfold relocate in ground (arith, refused))
        | inr allowed ↦ elim (Result-cases call.0) [
          | inr (e, r) ↦
              Advances-then w call.1 out.1 looked
                (Advances-same call.1 out.1 (unfold relocate for_key in ground (arith, allowed, r)))
          | inl (b, r) ↦ elim (Option-cases (get_elem? w2.shard_dbs (shard_of P c id))) [
            | inl e ↦
                let (gone, same) = find_local_missing P c laws on id w2 e in
                absurd (ground (arith, gone, r))
            | inr (db, at) ↦
                let (member, named, l) : Located P c laws on id w2 db at (ok b, call.1) =
                  subst (λ (o : Result Booking). Located P c laws on id w2 db at (o, call.1)) r
                    (find_local-Located P c laws on id w2 db at) in
                let eq : out
                    ≡ relocate_found P c (shard_of P c id) (shard_of P c dto.room_id) id dto b
                        call.1 =
                  unfold relocate for_key in ground (arith, allowed, r) in
                subst (λ (o : Result Relocated × World P). Advances w o.1) (sym eq)
                  (Advances-then w call.1
                    (relocate_found P c (shard_of P c id) (shard_of P c dto.room_id) id dto b
                      call.1).1
                    looked
                    (relocate_found-Advances (shard_of P c id) (shard_of P c dto.room_id) id dto b
                      call.1 l.db' l.here v2
                      (subst (λ (t : Tables). In b t.bookings) (sym l.tables) member) named))
          ]
        ]
      ]
