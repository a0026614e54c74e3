-- ===== src/Bookings/Reservation/Tests.antt =====
-- A reservation of the free room of the sample state, and one of its booked room.
use booking_hotel.Prelude.{◌≡◌, none, refl}
use booking_hotel.Schema.{pending}
use booking_hotel.Runtime.Errors.{err}
use booking_hotel.Runtime.Memory.{memory_prisma, memory_prisma_laws}
use booking_hotel.Runtime.Sample.{
  first_tables, second_tables, booking_id, guest_id, first_room_id, second_room_id,
}
use booking_hotel.Bookings.Reservation.{Reservation, reserve, overlaps, already_booked}
use booking_hotel.Bookings.Reservation.Stay.{Booked, reserve-Booked}

-- The second night of the sample booking and the one after it.
abbrev in_second : Reservation
in_second = record {
  id = booking_id;
  room_id = second_room_id;
  guest_id = guest_id;
  check_in = 950400000;
  check_out = 1123200000;
  status = pending;
}

abbrev in_first : Reservation
in_first = record in_second { room_id = first_room_id }

booked_room : reserve memory_prisma in_first none first_tables ≡ (err already_booked, first_tables)
unfolding reserve overlaps
booked_room = refl

reserve-Booked_example :
    Booked memory_prisma memory_prisma_laws in_second none second_tables
      (reserve memory_prisma in_second none second_tables)
reserve-Booked_example =
    reserve-Booked memory_prisma memory_prisma_laws in_second none second_tables
