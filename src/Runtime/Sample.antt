-- ===== src/Runtime/Sample.antt =====
-- One state of the application for the examples: two shards and a Replica, a hotel with one room on
-- each shard, and a booking on the first.
use booking_hotel.Prelude.{true, false, none, some, [], ◌∷◌, ◌++◌, JsString, replicate}
use booking_hotel.Schema.{Tables, Room, Guest, Booking, confirmed, single}
use booking_hotel.Schema.Amount.{pos}
use booking_hotel.Runtime.Memory.{memory}
use booking_hotel.Runtime.World.{Config, NodeHealth, ShardHealth, ShardStats, RequestContext, World}
use booking_hotel.Sharding.Key.{city}

-- Buckets 0-31 lie on shard 0 and buckets 32-63 on shard 1.
abbrev pub sample_config : Config
sample_config = record {
  redis_url = true;
  replica_enabled = true;
  sticky_ttl_ms = 5000;
  sharded = true;
  shard_count = 2;
  strategy = city;
  bucket_map = replicate 32 0 ++ replicate 32 1;
  saga_fault_injection = true;
}

-- The texts "00", "3f", "00-1" and "3f-1".
abbrev pub first_room_id : JsString
first_room_id = 48 ∷ 48 ∷ []

abbrev pub second_room_id : JsString
second_room_id = 51 ∷ 102 ∷ []

abbrev pub booking_id : JsString
booking_id = 48 ∷ 48 ∷ 45 ∷ 49 ∷ []

abbrev pub guest_id : JsString
guest_id = 103 ∷ []

abbrev room : JsString → Room
room id = record {
  id = id;
  hotel_id = id;
  room_number = 49 ∷ [];
  type = single;
  price_per_night = 100;
  capacity = 1;
  created_at = 0;
}

abbrev pub sample_guest : Guest
sample_guest = record {
  id = guest_id;
  full_name = guest_id;
  email = guest_id;
  phone = none;
  created_at = 0;
}

-- Two nights in the first room.
abbrev pub sample_booking : Booking
sample_booking = record {
  id = booking_id;
  room_id = first_room_id;
  guest_id = guest_id;
  check_in_date = 864000000;
  check_out_date = 1036800000;
  status = confirmed;
  total_price = pos 200;
  created_at = 0;
}

abbrev pub main_tables : Tables
main_tables = record { hotels = []; rooms = []; guests = sample_guest ∷ []; bookings = [] }

abbrev pub first_tables : Tables
first_tables = record {
  hotels = [];
  rooms = room first_room_id ∷ [];
  guests = [];
  bookings = sample_booking ∷ [];
}

abbrev pub second_tables : Tables
second_tables = record { hotels = []; rooms = room second_room_id ∷ []; guests = []; bookings = [] }

abbrev healthy_node : NodeHealth
healthy_node = record { healthy = true; last_check_at = none; last_error = none }

abbrev no_stats : ShardStats
no_stats = record { reads = 0; writes = 0; fan_out_queries = 0; errors = 0 }

abbrev healthy_shard : ShardHealth
healthy_shard = record { healthy = true; last_error = none }

abbrev pub sample_context : RequestContext
sample_context = record {
  session_id = 115 ∷ [];
  nodes = [];
  routes = [];
  headers_sent = false;
  headers = record {
    db_node = [];
    db_route = [];
    shards = [];
    shard_bucket = none;
    shard_fanout = none;
    shard_partial = [];
  };
}

abbrev pub sample_world : World memory
sample_world = record {
  primary_db = main_tables;
  replica_db = record main_tables { guests = [] };
  shard_dbs = first_tables ∷ second_tables ∷ [];
  redis = [];
  cache = record { hits = 0; misses = 0; bypasses = 0; invalidations = 0; last_error_log_at = 0 };
  router = record {
    primary_health = healthy_node;
    replica_health = healthy_node;
    local_sticky = [];
    stats = record {
      reads_primary = 0;
      reads_replica = 0;
      writes = 0;
      rejected_writes = 0;
      routes = λ r. 0;
    };
  };
  shards = record {
    health = healthy_shard ∷ healthy_shard ∷ [];
    stats = no_stats ∷ no_stats ∷ [];
    totals = record { local = 0; fan_out = 0; partial_fan_out = 0 };
  };
  context = some sample_context;
  now = 1000;
  next_uuid = 0;
  next_random = 0;
}
