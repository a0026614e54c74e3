-- ===== src/Bookings/Relocation/Frame.antt =====
-- The shards that a relocation between two others does not touch.
use booking_hotel.Bookings.Relocation.{
  compensate, cancel_original, abort_saga, finish_saga, after_reserve, relocate_saga,
  is_active_original, is_pending_reservation, a_step,
}
use booking_hotel.Bookings.Reservation.{Reservation, reserve}
use booking_hotel.Bookings.Service.{with_status, by_id}
use booking_hotel.Bookings.Service.Writes.{invalidated}
use booking_hotel.Bookings.Transactions.{serializable}
use booking_hotel.Prelude.{
  ◌≡◌, ◌≢◌, ℕ, true, get_elem?, arith, inl, inr, JsString, List, Bool, none, [], ◌∷◌, ◌++◌,
}
use booking_hotel.Runtime.Errors.{
  Error, SagaStep, Result-cases, failed, done, message, t1_reserve, t2_cancel,
}
use booking_hotel.Runtime.Platform.{Platform, Query}
use booking_hotel.Runtime.World.{World, Config}
use booking_hotel.Schema.{Booking, cancelled}
use booking_hotel.Sharding.Router.{write_shard, writes, name_of}
use booking_hotel.Sharding.Router.Isolation.{run_physical-nodes}

module _ (P : Platform) (c : Config) (on : c.sharded ≡ true) (j : ℕ) where
  -- The client of shard `j` is as it was.
  abbrev Spared : World P → World P → Type 0
  Spared w w' = get_elem? w'.shard_dbs j ≡ get_elem? w.shard_dbs j

  write_shard-Spared :
      {A : Type 0} (index : ℕ) (mutation : Query P.prisma.Db A) (w : World P)
      → index ≢ j
      → Spared w (write_shard P c index mutation w).1
  unfolding write_shard
  write_shard-Spared index mutation w ne =
      let (_, _, others, _, _) = run_physical-nodes P c index writes mutation w in
      ground (arith, others j ne)

  module _ (source target : ℕ) (from_source : source ≢ j) (from_target : target ≢ j) where
    compensate-Spared :
        (id : JsString) (steps : List SagaStep) (w : World P)
        → Spared w (compensate P c target id steps w).1
    unfolding compensate
    compensate-Spared id steps w =
        let same =
          write_shard-Spared target
            (P.prisma.booking.update_many (is_pending_reservation id) (with_status cancelled)) w
            from_target in
        ground (arith, same)

    cancel_original-Spared :
        (id : JsString) (simulate_failure : Bool) (w : World P)
        → Spared w (cancel_original P c source id simulate_failure w).1
    unfolding cancel_original
    cancel_original-Spared id simulate_failure w =
        let same =
          write_shard-Spared source
            (P.prisma.booking.update_many (is_active_original id) (with_status cancelled)) w
            from_source in
        ground (arith, same)

    abort_saga-Spared :
        (id : JsString) (steps : List SagaStep) (e : Error) (w : World P)
        → Spared w (abort_saga P c source target id steps e w).1
    abort_saga-Spared id steps e w =
        let steps' = steps ++ a_step t2_cancel (name_of P c source) failed (message e) ∷ [] in
        let call = compensate P c target id steps' w in
        let same = compensate-Spared id steps' w in
        let (quiet, kept) = invalidated P c call.1 in
        elim (Result-cases call.0) [
          | inl (s, r) ↦ unfold abort_saga in ground (arith, same, kept, quiet, r)
          | inr (x, r) ↦ unfold abort_saga in ground (arith, same, r)
        ]

    finish_saga-Spared :
        (original created : Booking) (steps : List SagaStep) (w : World P)
        → Spared w (finish_saga P c source target original created steps w).1
    finish_saga-Spared original created steps w =
        let mutation = P.prisma.booking.update (by_id created.id) (with_status original.status) in
        let call = write_shard P c target mutation w in
        let same = write_shard-Spared target mutation w from_target in
        let (quiet, kept) = invalidated P c call.1 in
        elim (Result-cases call.0) [
          | inl (s, r) ↦ unfold finish_saga in ground (arith, same, kept, quiet, r)
          | inr (x, r) ↦ unfold finish_saga in ground (arith, same, r)
        ]

    after_reserve-Spared :
        (id : JsString) (original created : Booking) (simulate_failure : Bool) (w : World P)
        → Spared w (after_reserve P c source target id original simulate_failure created w).1
    after_reserve-Spared id original created simulate_failure w =
        let steps = a_step t1_reserve (name_of P c target) done created.id ∷ [] in
        let call = cancel_original P c source id simulate_failure w in
        let same = cancel_original-Spared id simulate_failure w in
        elim (Result-cases call.0) [
          | inl (u, r) ↦
              let rest =
                finish_saga-Spared original created
                  (steps ++ a_step t2_cancel (name_of P c source) done id ∷ []) call.1 in
              unfold after_reserve in ground (arith, r, same, rest)
          | inr (x, r) ↦
              let rest = abort_saga-Spared created.id steps x call.1 in
              unfold after_reserve in ground (arith, r, same, rest)
        ]

    pub relocate_saga-Spared :
        (id : JsString) (original : Booking) (d : Reservation) (simulate_failure : Bool)
        (w : World P)
        → Spared w (relocate_saga P c source target id original d simulate_failure w).1
    relocate_saga-Spared id original d simulate_failure w =
        let t1 : Query P.prisma.Db Booking = serializable P.prisma λ _. reserve P.prisma d none in
        let call = write_shard P c target t1 w in
        let same = write_shard-Spared target t1 w from_target in
        elim (Result-cases call.0) [
          | inl (b, r) ↦
              let rest = after_reserve-Spared id original b simulate_failure call.1 in
              unfold relocate_saga in ground (arith, r, same, rest)
          | inr (x, r) ↦ unfold relocate_saga in ground (arith, r, same)
        ]
