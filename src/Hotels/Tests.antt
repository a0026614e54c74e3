-- ===== src/Hotels/Tests.antt =====
-- A hotel that is created and looked up.
use booking_hotel.Sharding.Key.{bucket_for_new_hotel, id_in_bucket, bucket_of}
use booking_hotel.Runtime.World.{on_shard}
use booking_hotel.Prelude.{◌≡◌, none, some, [], ◌∷◌, refl}
use booking_hotel.Schema.{Hotel}
use booking_hotel.Runtime.Errors.{ok}
use booking_hotel.Runtime.Memory.{memory_prisma, memory, memory_prisma_laws}
use booking_hotel.Runtime.Sample.{sample_config, sample_world, guest_id}
use booking_hotel.Hotels.{CreateHotel, create, hotel_with}
use booking_hotel.Hotels.Placement.{create-found}
use booking_hotel.Sharding.Router.{
  count, mark_shard_up, annotate_shard, run_physical, write_shard, for_key, new_hotel_id,
  read_shard, shard_of,
}
use booking_hotel.Database.Router.{strong_read}

abbrev wanted : CreateHotel
wanted = record { name = guest_id; address = guest_id; city = guest_id; rating = none }

-- The bucket of the city "g" is 6.
abbrev made : Hotel
made = record {
  id = 48 ∷ 54 ∷ 48 ∷ 48 ∷ 0 ∷ [];
  name = guest_id;
  address = guest_id;
  city = guest_id;
  rating = 0;
  created_at = 0;
}

creates : (create memory sample_config wanted sample_world).0 ≡ ok made
unfolding create new_hotel_id for_key write_shard run_physical on_shard annotate_shard shard_of
    bucket_of id_in_bucket bucket_for_new_hotel mark_shard_up count
creates = refl

-- What the lookup after it answers.
looks_up :
    (read_shard memory sample_config
      (shard_of memory sample_config made.id)
      (memory_prisma.hotel.find_unique (hotel_with made.id))
      strong_read
      (create memory sample_config wanted sample_world).1).0
    ≡ ok (some made)
unfolding create new_hotel_id for_key write_shard read_shard run_physical on_shard annotate_shard
    shard_of bucket_of id_in_bucket bucket_for_new_hotel mark_shard_up count
looks_up = refl

create-found_example :
    (found : Hotel) × (some made ≡ some found)
    × (found.id ≡ made.id)
    × (made.name ≡ guest_id)
    × (made.address ≡ guest_id)
    × (made.city ≡ guest_id)
create-found_example =
    create-found memory sample_config memory_prisma_laws refl wanted sample_world made creates
      strong_read (some made) looks_up
