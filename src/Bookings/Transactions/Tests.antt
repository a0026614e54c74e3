-- ===== src/Bookings/Transactions/Tests.antt =====
-- A transaction that the database refuses to serialize.
use booking_hotel.Prelude.{◌⊎◌, ◌∷◌, [], ◌≡◌, ℕ, refl, js, ◌-◌}
use booking_hotel.Schema.{Tables}
use booking_hotel.Runtime.Errors.{Error, err, known_request}
use booking_hotel.Runtime.Platform.{Query}
use booking_hotel.Runtime.Memory.{memory_prisma, memory_prisma_laws}
use booking_hotel.Runtime.Sample.{first_tables}
use booking_hotel.Bookings.Transactions.{
  serializable, serializable_from, serialization_retries, is_conflict, retry_error,
}
use booking_hotel.Bookings.Transactions.Progress.{Retries, Conflict, attempt, serializable-Ends}
use booking_hotel.Bookings.Transactions.Atomicity.{Atomic, serializable-Atomic}

-- The code P2034.
abbrev conflict : Error
conflict = known_request (80 ∷ 50 ∷ 48 ∷ 51 ∷ 52 ∷ []) []

abbrev conflicting : ℕ → Query Tables ℕ
conflicting left t = (err conflict, record t { bookings = [] })

gives_up : serializable memory_prisma conflicting first_tables ≡ (err retry_error, first_tables)
unfolding serializable serializable_from is_conflict js
gives_up = refl

serializable-Atomic_example :
    Atomic memory_prisma conflicting
      (serialization_retries - 1)
      first_tables
      (serializable memory_prisma conflicting first_tables)
serializable-Atomic_example =
    serializable-Atomic memory_prisma memory_prisma_laws conflicting first_tables

serializable-Ends_example :
    (left : ℕ) × (t : Tables) × Retries memory_prisma conflicting left t
      (serialization_retries - 1)
      first_tables
    × (((Conflict (attempt memory_prisma conflicting left t).0 → ⊥)
          × (serializable memory_prisma conflicting first_tables
              ≡ attempt memory_prisma conflicting left t))
        ⊎ ((left ≡ 0)
            × Conflict (attempt memory_prisma conflicting left t).0
            × (serializable memory_prisma conflicting first_tables
                ≡ (err retry_error, (attempt memory_prisma conflicting left t).1))))
serializable-Ends_example = serializable-Ends memory_prisma conflicting first_tables
