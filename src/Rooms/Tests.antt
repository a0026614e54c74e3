-- ===== src/Rooms/Tests.antt =====
-- A room that is created, and a search of the sample state.
use booking_hotel.Sharding.Key.{bucket_of}
use booking_hotel.Prelude.{get_elem?, get_or, ◌≡◌, none, some, [], ◌∷◌, refl, inl, arith}
use booking_hotel.Schema.{Room, Hotel, Tables, single}
use booking_hotel.Runtime.Errors.{ok}
use booking_hotel.Runtime.Platform.{In}
use booking_hotel.Runtime.World.{on_shard, World}
use booking_hotel.Runtime.Memory.{memory, memory_prisma_laws}
use booking_hotel.Runtime.Sample.{
  sample_config, sample_world, guest_id, first_tables, second_tables, first_room_id,
}
use booking_hotel.Cache.Keys.{SearchParams}
use booking_hotel.Rooms.{CreateRoom, create, search, search_query, matches}
use booking_hotel.Rooms.Placement.{Placed, create-Placed}
use booking_hotel.Rooms.Search.{Available, Suits, search-Available}
use booking_hotel.Rooms.Completeness.{search_complete}
use booking_hotel.Sharding.Router.{
  count, mark_shard_up, gather, run_physical, read_shard, ask, settle_all, fan_out, fan_out_list,
  shard_of,
}
use booking_hotel.Sharding.Router.Isolation.{answer_of}
use booking_hotel.Database.Router.{eventual_read}

abbrev hotel : Hotel
hotel = record {
  id = first_room_id;
  name = guest_id;
  address = guest_id;
  city = guest_id;
  rating = 0;
  created_at = 0;
}

abbrev hotel_tables : Tables
hotel_tables = record first_tables { hotels = hotel ∷ [] }

abbrev hotel_world : World memory
hotel_world = record sample_world { shard_dbs = hotel_tables ∷ second_tables ∷ [] }

abbrev wanted : CreateRoom
wanted = record {
  hotel_id = first_room_id;
  room_number = 50 ∷ [];
  type = single;
  price_per_night = 100;
  capacity = 2;
}

hotel_shard :
    get_elem? hotel_world.shard_dbs (shard_of memory sample_config first_room_id)
    ≡ some hotel_tables
unfolding shard_of bucket_of
hotel_shard = refl

create-Placed_example :
    Placed memory sample_config memory_prisma_laws refl wanted hotel_world hotel_tables hotel_shard
      (create memory sample_config wanted hotel_world)
create-Placed_example =
    create-Placed memory sample_config memory_prisma_laws refl wanted hotel_world hotel_tables
      hotel_shard

-- The nights of the sample booking: only the second room is free.
abbrev wish : SearchParams
wish = record {
  city = none;
  check_in = 864000000 ∷ [];
  check_out = 1036800000 ∷ [];
  guests = some 1;
}

finds_second :
    (search memory sample_config wish eventual_read sample_world).0 ≡ ok second_tables.rooms
unfolding search matches fan_out_list fan_out settle_all ask read_shard run_physical on_shard gather
    mark_shard_up count
finds_second = refl

abbrev second_room : Room
second_room = get_or second_tables.rooms 0 (record {
  id = [];
  hotel_id = [];
  room_number = [];
  type = single;
  price_per_night = 0;
  capacity = 0;
  created_at = 0;
})

search-Available_example :
    Available memory sample_config memory_prisma_laws refl wish eventual_read sample_world
      second_tables.rooms finds_second second_room
search-Available_example =
    search-Available memory sample_config memory_prisma_laws refl wish eventual_read sample_world
      second_tables.rooms finds_second second_room (inl refl)

second_answers :
    answer_of memory sample_config (search_query memory sample_config wish) sample_world 1
    ≡ ok second_tables.rooms
unfolding matches
second_answers = refl

second_room-Suits : Suits 864000000 1036800000 wish second_tables second_room
second_room-Suits = record {
  capacity = λ n q. ground (arith, q);
  city = λ name q ne. absurd (ground (arith, q));
  free = tt;
}

search_complete_example : In second_room second_tables.rooms
search_complete_example =
    search_complete memory sample_config memory_prisma_laws refl wish eventual_read sample_world
      second_tables.rooms finds_second 1 second_tables second_tables.rooms second_room refl
      (omega arith) refl second_answers (inl refl) second_room-Suits
