-- ===== src/Bookings/Relocation.antt =====
-- `relocate` of src/bookings/bookings.service.ts: one transaction where both rooms are on one shard,
-- and a saga with compensation where they are not.
pub mod Ends
pub mod Compensation
pub mod Cancellation
pub mod Saga
pub mod Local
pub mod Frame
mod Tests
use booking_hotel.Bookings.Transactions.{serializable}
use booking_hotel.Sharding.Router.{child_id, for_key, name_of, write_shard}
use booking_hotel.Bookings.Reservation.{reserve, Reservation}
use booking_hotel.Runtime.World.{World, Action, Config, pure, throw, ◌>>=◌, ◌>>◌, modify, gets}
use booking_hotel.Runtime.Errors.{
  t3_set_status, reserve_and_cancel, c1_compensate, t1_reserve, plain, message, StepStatus,
  t2_cancel, StepName, Error, Result, ok, err, http, saga_aborted, SagaStep, done, failed,
  compensated,
}
use booking_hotel.Runtime.Platform.{Platform, Query}
use booking_hotel.Runtime.Queries
use booking_hotel.Prelude.{
  ◌==◌, str_eq, not, zero, ◌&&◌, Bool, if◌then◌else◌, suc, ℕ, JsString, js, List, none, some, [],
  ◌∷◌, ◌++◌,
}
use booking_hotel.Bookings.Service.{find_local, invalidate_search, with_status, by_id}
use booking_hotel.Schema.{
  is_active, same_status, BookingStatus, Booking, pending, confirmed, cancelled, completed,
}

pub record RelocateBooking : Type 0 where
  pub room_id : JsString
  pub simulate_failure : Bool

pub data RelocateMode : Type 0 where
  local_transaction saga : RelocateMode

pub record Relocated : Type 0 where
  pub mode : RelocateMode
  pub from : JsString
  pub to : JsString
  pub booking : Booking
  pub previous : Booking
  pub steps : List SagaStep

unfoldable pub injection_disabled : Error
unfolding js
injection_disabled =
    http 400 (js "simulateFailure is available only with SAGA_FAULT_INJECTION=true")

unfoldable pub not_relocatable : BookingStatus → Error
unfolding js
not_relocatable pending = http 409 (js "Only active bookings can be relocated (status: PENDING)")
not_relocatable confirmed =
    http 409 (js "Only active bookings can be relocated (status: CONFIRMED)")
not_relocatable cancelled =
    http 409 (js "Only active bookings can be relocated (status: CANCELLED)")
not_relocatable completed =
    http 409 (js "Only active bookings can be relocated (status: COMPLETED)")

unfoldable pub already_in_room : Error
unfolding js
already_in_room = http 400 (js "Booking is already in this room")

unfoldable pub injected_failure : Error
unfolding js
injected_failure = plain (js "Injected failure before T2 (SAGA_FAULT_INJECTION)")

unfoldable pub no_longer_active : Error
unfolding js
no_longer_active = http 409 (js "Original booking is no longer active")

-- `err instanceof HttpException ? err.getStatus() : HttpStatus.CONFLICT`
abbrev pub status_code : Error → ℕ
status_code (http status text) = status
status_code (saga_aborted status text from to steps) = status
status_code _ = 409

-- `sagaAborted`
unfoldable pub aborted : List SagaStep → Error → JsString → JsString → Error
aborted steps e from to = saga_aborted (status_code e) (message e) from to steps

abbrev pub a_step : StepName → JsString → StepStatus → JsString → SagaStep
a_step name shard status detail = record {
  step = name;
  shard = shard;
  status = status;
  detail = some detail;
}

-- `where: { id, status: { in: ACTIVE_STATUSES } }` and `where: { id: created.id, status: PENDING }`
abbrev pub is_active_original : JsString → Booking → Bool
is_active_original id b = str_eq b.id id && is_active b.status

abbrev pub is_pending_reservation : JsString → Booking → Bool
is_pending_reservation id b = str_eq b.id id && same_status b.status pending

abbrev pub new_reservation : JsString → JsString → Booking → BookingStatus → Reservation
new_reservation id room_id original status = record {
  id = id;
  room_id = room_id;
  guest_id = original.guest_id;
  check_in = original.check_in_date;
  check_out = original.check_out_date;
  status = status;
}

module _ (P : Platform) (c : Config) where
  -- The transaction of the local case: the new booking, then the end of the old one.
  unfoldable pub move_locally : Reservation → JsString → Query P.prisma.Db (Booking × Booking)
  move_locally d id = Queries.◌>>=◌ (reserve P.prisma d (some id)) λ created.
      Queries.◌>>=◌ (P.prisma.booking.update (by_id id) (with_status cancelled))
        λ previous. Queries.pure (created, previous)

  unfoldable pub relocate_local : ℕ → JsString → Reservation → Action P Relocated
  relocate_local source id d = do
    moved ← write_shard P c source (serializable P.prisma λ _. move_locally d id)
    invalidate_search P c
    pure (record {
      mode = local_transaction;
      from = name_of P c source;
      to = name_of P c source;
      booking = moved.0;
      previous = moved.1;
      steps =
          record {
            step = reserve_and_cancel;
            shard = name_of P c source;
            status = done;
            detail = none;
          }
          ∷ [];
    })

  -- `compensate`: its own failure is recorded, not thrown.
  unfoldable pub compensate : ℕ → JsString → List SagaStep → Action P (List SagaStep)
  compensate target id steps w =
      let (r, w') =
        write_shard P c target
          (P.prisma.booking.update_many (is_pending_reservation id) (with_status cancelled)) w in
      elim r [
        | ok _ ↦ (ok (steps ++ a_step c1_compensate (name_of P c target) compensated id ∷ []), w')
        | err e ↦
            (ok (steps ++ a_step c1_compensate (name_of P c target) failed (message e) ∷ []), w')
      ]

  abbrev require_cancelled : ℕ → Action P (Unit {0})
  require_cancelled zero = throw no_longer_active
  require_cancelled (suc n) = pure tt

  -- The `try` block of T2.
  unfoldable pub cancel_original : ℕ → JsString → Bool → Action P (Unit {0})
  cancel_original source id simulate_failure =
      if simulate_failure
      then throw injected_failure
      else (write_shard P c source
            (P.prisma.booking.update_many (is_active_original id) (with_status cancelled))
          >>= require_cancelled)

  -- The `catch` block of T2.
  unfoldable pub abort_saga : ℕ → ℕ → JsString → List SagaStep → Error → Action P Relocated
  abort_saga source target created_id steps e = do
    steps' ←
        compensate target created_id
          (steps ++ a_step t2_cancel (name_of P c source) failed (message e) ∷ [])
    invalidate_search P c
    throw (aborted steps' e (name_of P c source) (name_of P c target))

  -- T3 and what follows it.
  unfoldable pub finish_saga : ℕ → ℕ → Booking → Booking → List SagaStep → Action P Relocated
  finish_saga source target original created steps = do
    fixed ←
        write_shard P c target
          (P.prisma.booking.update (by_id created.id) (with_status original.status))
    invalidate_search P c
    pure (record {
      mode = saga;
      from = name_of P c source;
      to = name_of P c target;
      booking = fixed;
      previous = with_status cancelled original;
      steps = steps ++ a_step t3_set_status (name_of P c target) done created.id ∷ [];
    })

  -- T2 and what follows it.
  unfoldable pub after_reserve : ℕ → ℕ → JsString → Booking → Bool → Booking → Action P Relocated
  after_reserve source target id original simulate_failure created w =
      let steps = a_step t1_reserve (name_of P c target) done created.id ∷ [] in
      let (r, w') = cancel_original source id simulate_failure w in
      elim r [
        | ok _ ↦
            finish_saga source target original created
              (steps ++ a_step t2_cancel (name_of P c source) done id ∷ []) w'
        | err e ↦ abort_saga source target created.id steps e w'
      ]

  -- T1 and what follows it.
  unfoldable pub relocate_saga :
      ℕ → ℕ → JsString → Booking → Reservation → Bool → Action P Relocated
  relocate_saga source target id original d simulate_failure w =
      let (r, w') = write_shard P c target (serializable P.prisma λ _. reserve P.prisma d none) w in
      elim r [
        | ok created ↦ after_reserve source target id original simulate_failure created w'
        | err e ↦ (
          err (
              aborted (a_step t1_reserve (name_of P c target) failed (message e) ∷ []) e
                (name_of P c source) (name_of P c target)),
          w',
        )
      ]

  unfoldable pub relocate_found : ℕ → ℕ → JsString → RelocateBooking → Booking → Action P Relocated
  relocate_found source target id dto original =
      if not (is_active original.status)
      then throw (not_relocatable original.status)
      else if str_eq original.room_id dto.room_id
      then throw already_in_room
      else (do
        new_id ← child_id P c dto.room_id
        if source == target
            then relocate_local source id
                (new_reservation new_id dto.room_id original original.status)
            else relocate_saga source target id original
                (new_reservation new_id dto.room_id original pending) dto.simulate_failure)

  unfoldable pub relocate : JsString → RelocateBooking → Action P Relocated
  relocate id dto =
      if dto.simulate_failure && not c.saga_fault_injection then throw injection_disabled else (do
        source ← for_key P c id
        target ← for_key P c dto.room_id
        original ← find_local P c id
        relocate_found source target id dto original)
