-- ===== src/Bookings/Service/Tests.antt =====
-- Requests to BookingsService in the sample state.
use booking_hotel.Sharding.Key.{bucket_of}
use booking_hotel.Sharding.Router.{shard_of}
use mathlib.Core.Path.{subst}
use booking_hotel.Prelude.{some, get_elem?, ◌≡◌, refl, zero, suc, [], ◌∷◌, arith}
use booking_hotel.Schema.{Tables}
use booking_hotel.Runtime.Memory.{memory, memory_prisma_laws}
use booking_hotel.Runtime.Sample.{
  booking_id, sample_config, sample_world, second_room_id, guest_id, first_tables, second_tables,
}
use booking_hotel.Bookings.Service.Lifecycle.{Ends, cancel-Ends}
use booking_hotel.Bookings.Service.{cancel, CreateBooking, create}
use booking_hotel.Bookings.Service.Creation.{NoDoubleBookings, create-NoDoubleBookings}
use booking_hotel.Bookings.Reservation.Availability.{NoDoubleBooking}

abbrev two_nights : CreateBooking
two_nights = record {
  room_id = second_room_id;
  guest_id = guest_id;
  check_in_date = 864000000 ∷ [];
  check_out_date = 1036800000 ∷ [];
}

sample_world-NoDoubleBookings : NoDoubleBookings sample_world
sample_world-NoDoubleBookings zero db at =
    let q : first_tables ≡ db = ground (arith, at) in
    subst (λ (t : Tables). NoDoubleBooking t.bookings) q (tt, tt)
sample_world-NoDoubleBookings (suc zero) db at =
    let q : second_tables ≡ db = ground (arith, at) in
    subst (λ (t : Tables). NoDoubleBooking t.bookings) q tt
sample_world-NoDoubleBookings (suc (suc j)) db at = absurd (ground (arith, at))

create-NoDoubleBookings_example :
    NoDoubleBookings (create memory sample_config two_nights sample_world).1
create-NoDoubleBookings_example =
    create-NoDoubleBookings memory sample_config memory_prisma_laws refl two_nights sample_world
      sample_world-NoDoubleBookings

booking_shard :
    get_elem? sample_world.shard_dbs (shard_of memory sample_config booking_id) ≡ some first_tables
unfolding shard_of bucket_of
booking_shard = refl

cancel-Ends_example :
    Ends memory sample_config memory_prisma_laws refl booking_id sample_world first_tables
      booking_shard
      (cancel memory sample_config booking_id sample_world)
cancel-Ends_example =
    cancel-Ends memory sample_config memory_prisma_laws refl booking_id sample_world first_tables
      booking_shard
