-- ===== src/Bookings/Transactions.antt =====
-- `serializable` of src/bookings/bookings.service.ts: a Serializable transaction, run again when
-- PostgreSQL reports a conflict (P2034), five times at most. The pause between two attempts is left
-- out. The callback is told how many attempts may still follow, since `create` draws a new
-- identifier in each.
pub mod Atomicity
pub mod Progress
mod Tests
use booking_hotel.Runtime.Errors.{Error, Result, ok, err, known_request, http}
use booking_hotel.Runtime.Platform.{Prisma, Query}
use booking_hotel.Prelude.{◌-◌, ℕ, zero, suc, Bool, true, false, JsString, js, str_eq}

abbrev pub serialization_retries : ℕ
serialization_retries = 5

unfoldable pub is_conflict : Error → Bool
unfolding js
is_conflict (known_request code text) = str_eq code (js "P2034")
is_conflict _ = false

unfoldable pub retry_error : Error
unfolding js
retry_error = http 409 (js "Concurrent booking conflict, please retry")

module _ (D : Prisma) {A : Type 0} (fn : ℕ → Query D.Db A) where
  -- The loop, on the number of attempts that may follow the present one.
  unfoldable pub serializable_from : ℕ → Query D.Db A
  serializable_from zero db =
      let (r, db') = D.transaction A (fn zero) db in
      elim r [
        | ok a ↦ (ok a, db')
        | err e ↦ elim (is_conflict e) [ true ↦ (err retry_error, db') | false ↦ (err e, db') ]
      ]
  serializable_from (suc left) db =
      let (r, db') = D.transaction A (fn (suc left)) db in
      elim r [
        | ok a ↦ (ok a, db')
        | err e ↦ elim (is_conflict e) [ true ↦ serializable_from left db' | false ↦ (err e, db') ]
      ]

  unfoldable pub serializable : Query D.Db A
  serializable = serializable_from (serialization_retries - 1)
