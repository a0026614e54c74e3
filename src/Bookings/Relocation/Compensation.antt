-- ===== src/Bookings/Relocation/Compensation.antt =====
-- The end of the saga: the compensation after a failed T2, and T3.
use booking_hotel.Bookings.Service.Writes.{invalidated}
use booking_hotel.Bookings.Relocation.Ends.{
  Made-pending, left_over, not_confirmed, moved, undone, ended, Ended, Made, changed, with_booking,
  Holds, Setting,
}
use mathlib.Core.Path.{subst}
use booking_hotel.Sharding.Router.Isolation.{write_shard-Wrote}
use booking_hotel.Sharding.Router.{write_shard, name_of}
use booking_hotel.Bookings.Relocation.{
  saga, finish_saga, compensate, abort_saga, is_active_original, is_pending_reservation, a_step,
  aborted, Relocated,
}
use booking_hotel.Bookings.Service.{by_id, with_status, invalidate_search}
use booking_hotel.Runtime.World.{World, Config}
use booking_hotel.Schema.{cancelled, BookingStatus, Booking, Tables}
use booking_hotel.Runtime.Platform.{Query, Platform}
use booking_hotel.Runtime.Errors.{
  done, t3_set_status, Result-cases, t2_cancel, Error, Result, ok, err, message, failed,
  compensated, c1_compensate, SagaStep,
}
use booking_hotel.Prelude.{
  ◌∙◌, sym, ap, ◌<◌, refl, inr, arith, inl, keep, length, ◌≡◌, List, ℕ, JsString, [], ◌∷◌, ◌++◌,
}

module _ {P : Platform} {c : Config} (g : Setting P c) where
  open g use {laws, on, source, target, apart, source_tables, target_tables, id, d, final}

  abbrev tables_of : P.prisma.Db → Tables
  tables_of = P.prisma.tables

  abbrev compensation : JsString → Query P.prisma.Db ℕ
  compensation created_id =
      P.prisma.booking.update_many (is_pending_reservation created_id) (with_status cancelled)

  -- The compensation has cancelled the reservation, or has left it and said so.
  pub abort_saga-Ended :
      (created : Booking) (steps : List SagaStep) (e : Error) (w : World P) (sdb tdb : P.prisma.Db)
      → Holds source w sdb
      → Holds target w tdb
      → tables_of sdb ≡ source_tables
      → tables_of tdb ≡ with_booking target_tables created
      → Made d target_tables created
      → Ended g (abort_saga P c source target created.id steps e w)
  unfolding abort_saga compensate
  abort_saga-Ended created steps e w sdb tdb hs ht ss tt' named =
      let from = name_of P c source in
      let to = name_of P c target in
      let mutation = compensation created.id in
      let wrote = write_shard-Wrote P c target mutation w tdb on ht in
      let w1 = (write_shard P c target mutation w).1 in
      let w2 = (invalidate_search P c w1).1 in
      let (quiet, same) = invalidated P c w1 in
      let hs1 : Holds source w1 sdb = wrote.others source (λ q. apart (sym q)) ∙ hs in
      let steps' = steps ++ a_step t2_cancel from failed (message e) ∷ [] in
      elim (Result-cases (write_shard P c target mutation w).0) [
        | inl (n, r) ↦
            let out : Result Relocated =
              err (
                aborted (steps' ++ a_step c1_compensate to compensated created.id ∷ []) e from
                  to) in
            let eq : abort_saga P c source target created.id steps e w ≡ (out, w2) = ground arith in
            let (_, t') =
              laws.booking.update_many_ok (is_pending_reservation created.id)
                (with_status cancelled) tdb n (wrote.value n r) in
            subst (Ended g) (sym eq) (
              ended g out w1 w2 sdb (mutation tdb).1 hs1 wrote.here same (
                undone created steps' e refl named (Made-pending g created named) ss
                  (t' ∙ ap (changed (is_pending_reservation created.id) cancelled) tt')))
        | inr (x, r) ↦
            let out : Result Relocated =
              err (aborted (steps' ++ a_step c1_compensate to failed (message x) ∷ []) e from to) in
            let eq : abort_saga P c source target created.id steps e w ≡ (out, w2) = ground arith in
            let (y, failed_with) = wrote.error x r in
            subst (Ended g) (sym eq) (
              ended g out w1 w2 sdb (mutation tdb).1 hs1 wrote.here same (
                left_over created steps' e x refl named (Made-pending g created named) ss (
                  laws.booking.update_many_err (is_pending_reservation created.id)
                    (with_status cancelled) tdb y failed_with
                  ∙ tt')))
      ]

  -- T3 restores the status, or leaves the new booking pending.
  pub finish_saga-Ended :
      (original created : Booking) (steps : List SagaStep) (w : World P) (sdb tdb : P.prisma.Db)
      → original.status ≡ final
      → Holds source w sdb
      → Holds target w tdb
      → 0 < length (keep (is_active_original id) source_tables.bookings)
      → tables_of sdb ≡ changed (is_active_original id) cancelled source_tables
      → tables_of tdb ≡ with_booking target_tables created
      → Made d target_tables created
      → Ended g (finish_saga P c source target original created steps w)
  unfolding finish_saga
  finish_saga-Ended original created steps w sdb tdb was hs ht some_row ss tt' named =
      let mutation : Query P.prisma.Db Booking =
        P.prisma.booking.update (by_id created.id) (with_status original.status) in
      let wrote = write_shard-Wrote P c target mutation w tdb on ht in
      let w1 = (write_shard P c target mutation w).1 in
      let w2 = (invalidate_search P c w1).1 in
      let (quiet, same) = invalidated P c w1 in
      let hs1 : Holds source w1 sdb = wrote.others source (λ q. apart (sym q)) ∙ hs in
      elim (Result-cases (write_shard P c target mutation w).0) [
        | inl (b, r) ↦
            let relocated : Relocated = record {
              mode = saga;
              from = name_of P c source;
              to = name_of P c target;
              booking = b;
              previous = with_status cancelled original;
              steps = steps ++ a_step t3_set_status (name_of P c target) done created.id ∷ [];
            } in
            let eq : finish_saga P c source target original created steps w ≡ (ok relocated, w2) =
              ground arith in
            let (_, _, _, _, t') =
              laws.booking.update_ok (by_id created.id) (with_status original.status) tdb b
                (wrote.value b r) in
            subst (Ended g) (sym eq) (
              ended g (ok relocated) w1 w2 sdb (mutation tdb).1 hs1 wrote.here same (
                moved created relocated refl named some_row ss (
                  t'
                  ∙ ap (changed (by_id created.id) original.status) tt'
                  ∙ ap
                      (λ (st : BookingStatus).
                        changed (by_id created.id) st (with_booking target_tables created))
                      was)))
        | inr (x, r) ↦
            let eq : finish_saga P c source target original created steps w ≡ (err x, w1) =
              ground arith in
            let (y, failed_with) = wrote.error x r in
            subst (Ended g) (sym eq) (
              ended g (err x) w1 w1 sdb (mutation tdb).1 hs1 wrote.here refl (
                not_confirmed created x refl named (Made-pending g created named) some_row ss (
                  laws.booking.update_err (by_id created.id) (with_status original.status) tdb y
                    failed_with
                  ∙ tt')))
      ]
