-- ===== src/Sharding/Router/Tests.antt =====
-- Two shards behind ShardRouter: routes, fan-outs and the isolation of a shard.
use booking_hotel.Sharding.Router.Merge.{fan_out_list-members, Answered}
use booking_hotel.Prelude.{
  ◌↔◌, zero, suc, ℕ, ◌≡◌, ◌<◌, ◌≢◌, ◌+◌, true, false, some, refl, arith, List, [], ◌∷◌, JsString,
  get_elem?, length, trim,
}
use booking_hotel.Schema.{Tables, Booking}
use booking_hotel.Database.Router.{eventual_read}
use booking_hotel.Runtime.Errors.{Error, ok, err, plain}
use booking_hotel.Runtime.Platform.{In, Query}
use booking_hotel.Runtime.World.{on_shard, Config}
use booking_hotel.Runtime.Memory.{memory}
use booking_hotel.Runtime.Sample.{
  second_room_id, sample_config, sample_world, first_tables, first_room_id,
}
use booking_hotel.Sharding.BucketMap.{build_bucket_map, built, round_robin}
use booking_hotel.Sharding.Router.{
  fan_out_list, count, mark_shard_up, finish_fan_out, gather, read_shard, ask, settle_all,
  FanOutResult, fan_out, name_of, shard_of, new_hotel_id, shard_for_city, run_physical, reads,
}
use booking_hotel.Sharding.Router.Isolation.{answer_of, run_physical-nodes}
use booking_hotel.Sharding.Router.FanOut.{
  answers_from, parts_of, failed_of, fan_out_partial, fan_out_complete,
}
use booking_hotel.Sharding.Router.Report.{all_buckets, get_state, get_state-buckets}
use booking_hotel.Sharding.Router.Colocation.{new_hotel_id-shard_for_city, shard_of-lt}

-- Every booking of a shard.
abbrev all_bookings : Query Tables (List Booking)
all_bookings t = (ok t.bookings, t)

abbrev empty_shard : Error
empty_shard = plain (1 ∷ [])

-- The same, but a shard without bookings rejects.
abbrev some_bookings : Query Tables (List Booking)
some_bookings t = elim t.bookings [ [] ↦ (err empty_shard, t) | b ∷ bs ↦ (ok (b ∷ bs), t) ]

fan_out_partial_example :
    (res : FanOutResult (List Booking)) × ((fan_out memory sample_config some_bookings true
        eventual_read sample_world).0
      ≡ ok res)
    × (res.parts
        ≡ parts_of memory sample_config
            (answers_from memory sample_config some_bookings eventual_read sample_world 0 2))
    × (res.failed
        ≡ failed_of memory sample_config
            (answers_from memory sample_config some_bookings eventual_read sample_world 0 2))
    × (length res.parts + length res.failed ≡ 2)
fan_out_partial_example =
    fan_out_partial memory sample_config some_bookings eventual_read sample_world refl

first_shard_answers :
    (i : ℕ)
    → i < 1
    → (a : List Booking) × (answer_of memory sample_config some_bookings sample_world i ≡ ok a)
first_shard_answers zero lt = (first_tables.bookings, refl)
first_shard_answers (suc i) lt = absurd (omega (arith, lt))

abbrev all_answers : FanOutResult (List Booking)
all_answers = record {
  parts =
      record { shard = name_of memory sample_config 0; result = first_tables.bookings }
      ∷ record { shard = name_of memory sample_config 1; result = [] }
      ∷ [];
  failed = [];
}

all_shards_answer :
    (fan_out memory sample_config all_bookings false eventual_read sample_world).0 ≡ ok all_answers
unfolding fan_out settle_all ask read_shard run_physical on_shard gather finish_fan_out
    mark_shard_up count
all_shards_answer = refl

fan_out_complete_example :
    (all_answers.failed ≡ [])
    × ((k : ℕ)
        → k < 2
        → (a : List Booking) × (answer_of memory sample_config all_bookings sample_world k ≡ ok a)
          × (get_elem? all_answers.parts k
              ≡ some (record { shard = name_of memory sample_config k; result = a })))
fan_out_complete_example =
    fan_out_complete memory sample_config all_bookings eventual_read sample_world all_answers refl
      all_shards_answer

run_physical-nodes_example :
    let (r, w') = run_physical memory sample_config 1 reads some_bookings sample_world in
    (r ≡ answer_of memory sample_config some_bookings sample_world 1)
    × ((db : Tables)
        → get_elem? sample_world.shard_dbs 1 ≡ some db
        → get_elem? w'.shard_dbs 1 ≡ some (some_bookings db).1)
    × ((j : ℕ) → 1 ≢ j → get_elem? w'.shard_dbs j ≡ get_elem? sample_world.shard_dbs j)
    × (w'.primary_db ≡ sample_world.primary_db)
    × (w'.replica_db ≡ sample_world.replica_db)
run_physical-nodes_example =
    run_physical-nodes memory sample_config 1 reads some_bookings sample_world

new_hotel_id-shard_for_city_example :
    (id : JsString) × ((new_hotel_id memory sample_config first_room_id sample_world).0 ≡ ok id)
    × (shard_for_city memory sample_config first_room_id ≡ some (shard_of memory sample_config id))
new_hotel_id-shard_for_city_example =
    new_hotel_id-shard_for_city memory sample_config sample_world first_room_id refl

-- The map of an empty SHARD_MAP.
abbrev round_config : Config
round_config = record sample_config { bucket_map = round_robin 2 }

round_built : build_bucket_map round_config.shard_count [] ≡ built round_config.bucket_map
unfolding build_bucket_map trim
round_built = refl

shard_of-lt_example : shard_of memory round_config second_room_id < 2
shard_of-lt_example = shard_of-lt memory round_config [] second_room_id (omega arith) round_built

fan_out_list-members_example :
    (merged : List Booking) × ((fan_out_list memory sample_config some_bookings true eventual_read
        sample_world).0
      ≡ ok merged)
    × ((x : Booking)
        → In x merged ↔ Answered memory sample_config some_bookings eventual_read sample_world x)
fan_out_list-members_example =
    fan_out_list-members memory sample_config some_bookings eventual_read sample_world refl

get_state-buckets_example :
    all_buckets (get_state memory round_config sample_world).shards
    ≡ (get_state memory round_config sample_world).buckets
get_state-buckets_example =
    get_state-buckets memory round_config sample_world [] (omega arith) round_built
