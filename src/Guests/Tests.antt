-- ===== src/Guests/Tests.antt =====
-- Guests of the sample state, and of one without bookings.
use booking_hotel.Prelude.{◌≡◌, [], ◌∷◌, refl}
use booking_hotel.Runtime.Errors.{err}
use booking_hotel.Runtime.World.{World}
use booking_hotel.Runtime.Memory.{memory}
use booking_hotel.Runtime.Sample.{
  sample_config, sample_world, guest_id, first_tables, second_tables,
}
use booking_hotel.Runtime.World.{on_primary, on_shard, on_redis}
use booking_hotel.Database.State.{track, count_write}
use booking_hotel.Database.Router.{read, read_primary, write_with, remember_write, stick}
use booking_hotel.Cache.Service.{set_flag, ready, guarded}
use booking_hotel.Sharding.Router.{
  fan_out, gather, settle_all, ask, read_shard, run_physical, mark_shard_up, count, finish_fan_out,
  annotate_fan_out,
}
use booking_hotel.Guests.{find_one, remove_counted, total_count, remove, has_bookings}

-- Nothing is booked.
abbrev free_world : World memory
free_world = record sample_world {
  shard_dbs = record first_tables { bookings = [] } ∷ second_tables ∷ [];
}

booked : (remove memory sample_config guest_id sample_world).0 ≡ err (has_bookings (1 ∷ []))
unfolding remove find_one read read_primary on_primary fan_out gather settle_all ask read_shard
    run_physical on_shard track mark_shard_up count remove_counted total_count write_with
    remember_write stick set_flag ready guarded count_write finish_fan_out annotate_fan_out on_redis
booked = refl
