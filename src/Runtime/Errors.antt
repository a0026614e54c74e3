-- ===== src/Runtime/Errors.antt =====
-- Promises that reject, as values. `http` is NestJS's `HttpException` with its status and message;
-- the three Prisma classes are those that `isConnectionError` tells apart
-- (src/database/db-router.service.ts); `saga_aborted` is the structured exception of
-- `sagaAborted` (src/bookings/bookings.service.ts).
use booking_hotel.Prelude.{refl, inr, inl, ◌⊎◌, ◌≡◌, ℕ, Option, List, JsString}

pub data StepStatus : Type 0 where
  done failed compensated skipped : StepStatus

pub data StepName : Type 0 where
  reserve_and_cancel t1_reserve t2_cancel t3_set_status c1_compensate : StepName

pub record SagaStep : Type 0 where
  pub step : StepName
  pub shard : JsString
  pub status : StepStatus
  pub detail : Option JsString

pub data Error : Type 0 where
  http : ℕ → JsString → Error
  saga_aborted : ℕ → JsString → JsString → JsString → List SagaStep → Error
  known_request : JsString → JsString → Error
  initialization : JsString → Error
  unknown_request : JsString → Error
  plain : JsString → Error

abbrev pub message : Error → JsString
message (http status text) = text
message (saga_aborted status text from to steps) = text
message (known_request code text) = text
message (initialization text) = text
message (unknown_request text) = text
message (plain text) = text

pub data Result {ℓ} (A : Type ℓ) : Type ℓ where
  ok : A → Result A
  err : Error → Result A

pub Result-cases {ℓ} :
    {A : Type ℓ} (r : Result A) → ((a : A) × (r ≡ ok a)) ⊎ ((e : Error) × (r ≡ err e))
Result-cases (ok a) = inl (a, refl)
Result-cases (err e) = inr (e, refl)
