-- ===== src/Bookings/Relocation/Tests.antt =====
-- A relocation of the sample booking to the other shard, with and without an injected failure.
use booking_hotel.Prelude.{[], ◌∷◌, false, refl, arith}
use booking_hotel.Schema.{confirmed, pending}
use booking_hotel.Runtime.Memory.{memory, memory_prisma_laws}
use booking_hotel.Runtime.Sample.{
  first_room_id, sample_config, sample_world, sample_booking, first_tables, second_tables,
  booking_id, second_room_id,
}
use booking_hotel.Bookings.Reservation.{Reservation}
use booking_hotel.Bookings.Relocation.{relocate_local, relocate_saga, new_reservation}
use booking_hotel.Bookings.Relocation.Ends.{Setting, Ended}
use booking_hotel.Bookings.Relocation.Local.{LocallyMoved, relocate_local-LocallyMoved}
use booking_hotel.Bookings.Relocation.Saga.{relocate_saga-Ended}

abbrev wanted : Reservation
wanted = new_reservation (51 ∷ 102 ∷ 45 ∷ []) second_room_id sample_booking pending

abbrev to_second : Setting memory sample_config
to_second = record {
  laws = memory_prisma_laws;
  on = refl;
  source = 0;
  target = 1;
  apart = λ e. absurd (omega (arith, e));
  source_tables = first_tables;
  target_tables = second_tables;
  id = booking_id;
  d = wanted;
  waits = refl;
  final = confirmed;
}

relocate_saga-Ended_example :
    Ended to_second
      (relocate_saga memory sample_config 0 1 booking_id sample_booking wanted false sample_world)
relocate_saga-Ended_example =
    relocate_saga-Ended to_second sample_booking false sample_world first_tables second_tables refl
      refl refl refl refl

-- A later stay in the room that is booked already.
abbrev later : Reservation
later = record wanted { room_id = first_room_id; check_in = 950400000; check_out = 1123200000 }

relocate_local-LocallyMoved_example :
    LocallyMoved memory sample_config memory_prisma_laws booking_id later 0 first_tables
      sample_world
      (relocate_local memory sample_config 0 booking_id later sample_world)
relocate_local-LocallyMoved_example =
    relocate_local-LocallyMoved memory sample_config memory_prisma_laws booking_id later 0
      sample_world first_tables refl refl
