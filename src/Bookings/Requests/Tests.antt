-- ===== src/Bookings/Requests/Tests.antt =====
-- Sequences of requests in the sample state.
use mathlib.Core.Path.{subst}
use booking_hotel.Prelude.{zero, suc, [], arith, ◌∷◌, ◌≡◌, false, refl}
use booking_hotel.Bookings.Requests.{
  Request, create_booking, cancel_booking, relocate_booking, serve, serve_all,
}
use booking_hotel.Bookings.Requests.Refinement.{serve_refines, serve_all-AllValid}
use booking_hotel.Bookings.Ledger.Shards.{Advances, AllValid}
use booking_hotel.Bookings.Ledger.Invariant.{Valid}
use booking_hotel.Bookings.Service.{CreateBooking}
use booking_hotel.Runtime.Memory.{memory, memory_prisma_laws}
use booking_hotel.Runtime.Sample.{
  booking_id, guest_id, second_room_id, first_tables, second_tables, sample_config, sample_world,
}

abbrev second_stay : CreateBooking
second_stay = record {
  room_id = second_room_id;
  guest_id = guest_id;
  check_in_date = 1036800000 ∷ [];
  check_out_date = 1123200000 ∷ [];
}

sample_world-AllValid : AllValid sample_world
sample_world-AllValid zero db at =
    let q : first_tables ≡ db = ground (arith, at) in
    subst Valid q (record { free = (tt, tt); distinct = (tt, tt); forward = (refl, tt) })
sample_world-AllValid (suc zero) db at =
    let q : second_tables ≡ db = ground (arith, at) in
    subst Valid q (record { free = tt; distinct = tt; forward = tt })
sample_world-AllValid (suc (suc j)) db at = absurd (ground (arith, at))

abbrev move_over : Request
move_over =
    relocate_booking booking_id (record { room_id = second_room_id; simulate_failure = false })

serve_refines_example : Advances sample_world (serve memory sample_config move_over sample_world)
serve_refines_example =
    serve_refines memory sample_config memory_prisma_laws refl move_over sample_world
      sample_world-AllValid

serve_all-AllValid_example : AllValid (
    serve_all memory sample_config
      (create_booking second_stay ∷ move_over ∷ cancel_booking booking_id ∷ [])
      sample_world)
serve_all-AllValid_example =
    serve_all-AllValid memory sample_config memory_prisma_laws refl
      (create_booking second_stay ∷ move_over ∷ cancel_booking booking_id ∷ []) sample_world
      sample_world-AllValid
