-- ===== src/Database/Router/Tests.antt =====
-- A Primary and a Replica that lags behind it: reads after a write, and reads while a node is down.
use booking_hotel.Cache.Service.{guarded, set_flag, ready, has_flag}
use booking_hotel.Prelude.{
  JsString, some, ℕ, ◌≡◌, ◌↔◌, true, false, none, refl, arith, [], ◌∷◌, js, not, if◌then◌else◌,
  length, inl,
}
use booking_hotel.Schema.{Tables}
use booking_hotel.Runtime.Errors.{Error, ok, err, known_request}
use booking_hotel.Runtime.Platform.{Query}
use booking_hotel.Runtime.World.{on_redis, on_primary, World, strong}
use booking_hotel.Runtime.Memory.{memory_prisma, memory}
use booking_hotel.Runtime.Sample.{sample_config, sample_world, sample_context, sample_guest}
use booking_hotel.Database.ConnectionErrors.{is_connection_error, connection_codes}
use booking_hotel.Database.State.{
  count_write, track, read_only_error, reject_write, unavailable_error,
}
use booking_hotel.Database.Router.{
  read_write, mode_of, probe_nodes, stick, sticky_get, remember_write, read, write_with, is_sticky,
  eventual_read, strong_read, primary_preferred_read,
}
use booking_hotel.Database.Router.Isolation.{write_with-nodes}
use booking_hotel.Database.Router.Sessions.{
  Later, elsewhere, probed, written, now_itself, read_your_writes,
}
use booking_hotel.Database.State.{mark_up, set_health, stamp}
use booking_hotel.Database.Router.{settle, probe_nodes}
use booking_hotel.Runtime.World.{on_replica}
use booking_hotel.Database.Router.Recovery.{probe_nodes-recovers}
use booking_hotel.Database.Router.Failover.{read_only_mode, primary_fallback}

-- The number of guests, and one guest more.
abbrev guest_count : Query Tables ℕ
guest_count t = (ok (length t.guests), t)

abbrev add_guest : Query Tables ℕ
add_guest t = (ok 0, record t { guests = sample_guest ∷ t.guests })

abbrev unreachable : Error
unreachable = known_request (80 ∷ 49 ∷ 48 ∷ 48 ∷ 49 ∷ []) []

-- A query that a node without guests answers with a connection error.
abbrev answer_or_drop : Query Tables ℕ
answer_or_drop t = elim t.guests [ [] ↦ (err unreachable, t) | g ∷ gs ↦ (ok 1, t) ]

write_returns : (write_with memory sample_config add_guest sample_world).0 ≡ ok 0
unfolding write_with remember_write set_flag on_primary track count_write ready guarded stick
write_returns = refl

-- Another request, at `t`; the nodes and Redis are as they were.
abbrev next_request : (t : ℕ) → JsString → World memory → World memory
next_request t session w = record w {
  now = t;
  context = some (record sample_context { session_id = session });
}

abbrev after_write : World memory
after_write = (write_with memory sample_config add_guest sample_world).1

-- Another session writes and the nodes are probed; then the first session comes back.
abbrev other_write : World memory
other_write =
    (write_with memory sample_config add_guest (next_request 2000 (116 ∷ []) after_write)).1

abbrev back_again : World memory
back_again = next_request 5999 (115 ∷ []) (probe_nodes memory sample_config other_write)

written_now : after_write.now ≡ 1000
unfolding write_with remember_write set_flag on_primary track count_write ready guarded stick
written_now = refl

probed_now : (probe_nodes memory sample_config other_write).now ≡ 2000
unfolding probe_nodes settle on_primary on_replica mark_up set_health stamp write_with
    remember_write set_flag track count_write ready guarded stick
probed_now = refl

comes_back : Later memory sample_config after_write back_again
comes_back =
    elsewhere 5999 (some (record sample_context { session_id = 115 ∷ [] }))
      (probe_nodes memory sample_config other_write).primary_db
      (probe_nodes memory sample_config other_write).replica_db
      (probe_nodes memory sample_config other_write).shard_dbs
      (probe_nodes memory sample_config other_write).redis (omega (arith, probed_now))
      (probed (
        written add_guest (
          elsewhere 2000 (some (record sample_context { session_id = 116 ∷ [] }))
            after_write.primary_db after_write.replica_db after_write.shard_dbs after_write.redis
            (omega (arith, written_now)) now_itself)))

primary_up : back_again.router.primary_health.healthy ≡ true
unfolding probe_nodes settle on_primary on_replica mark_up set_health stamp write_with
    remember_write set_flag track count_write ready guarded stick
primary_up = refl

three_guests : (guest_count back_again.primary_db).0 ≡ ok 3
unfolding probe_nodes settle on_primary on_replica mark_up set_health stamp write_with
    remember_write set_flag track count_write ready guarded stick
three_guests = refl

read_your_writes_example :
    ((read memory sample_config guest_count eventual_read back_again).0 ≡ ok 3)
    × ((read memory sample_config guest_count eventual_read back_again).1.replica_db
        ≡ back_again.replica_db)
read_your_writes_example =
    read_your_writes memory sample_config add_guest guest_count sample_world back_again
      sample_context (record sample_context { session_id = 115 ∷ [] }) 0 3 refl refl write_returns
      comes_back refl refl (omega arith) primary_up three_guests

write_with-nodes_example :
    let (r, w') = write_with memory sample_config add_guest sample_world in
    (w'.replica_db ≡ sample_world.replica_db)
    × (w'.shard_dbs ≡ sample_world.shard_dbs)
    × (w'.primary_db ≡ (
        if sample_world.router.primary_health.healthy
        then (add_guest sample_world.primary_db).1
        else sample_world.primary_db))
    × ((a : ℕ)
        → (r ≡ ok a) ↔ (
            (sample_world.router.primary_health.healthy ≡ true)
            × ((add_guest sample_world.primary_db).0 ≡ ok a)))
write_with-nodes_example = write_with-nodes memory sample_config add_guest sample_world

abbrev without_primary : World memory
without_primary = record sample_world {
  router = record sample_world.router {
    primary_health = record { healthy = false; last_check_at = none; last_error = none };
  };
}

read_only_mode_example :
    (write_with memory sample_config guest_count without_primary
      ≡ (err read_only_error, reject_write without_primary))
    × (read memory sample_config guest_count strong_read without_primary
        ≡ (err (unavailable_error strong), without_primary))
    × ((read memory sample_config guest_count eventual_read without_primary).0 ≡ ok 0)
    × ((read memory sample_config guest_count eventual_read without_primary).1.primary_db
        ≡ without_primary.primary_db)
    × ((read memory sample_config guest_count primary_preferred_read without_primary).0 ≡ ok 0)
    × ((read memory sample_config guest_count primary_preferred_read without_primary).1.primary_db
        ≡ without_primary.primary_db)
read_only_mode_example =
    read_only_mode memory sample_config guest_count without_primary 0 refl refl refl refl

unreachable_is_connection : is_connection_error unreachable ≡ true
unfolding is_connection_error connection_codes js
unreachable_is_connection = refl

not_sticky : (is_sticky memory sample_config sample_world).0 ≡ ok false
unfolding is_sticky has_flag ready guarded sticky_get on_redis
not_sticky = refl

primary_fallback_example :
    ((read memory sample_config answer_or_drop eventual_read sample_world).0 ≡ ok 1)
    × ((read memory sample_config answer_or_drop eventual_read
          sample_world).1.router.replica_health.healthy
        ≡ not (is_connection_error unreachable))
primary_fallback_example =
    primary_fallback memory sample_config answer_or_drop sample_world unreachable 1
      (inl unreachable_is_connection) refl not_sticky refl refl refl refl

probe_nodes-recovers_example :
    let w' = probe_nodes memory sample_config without_primary in
    (mode_of memory sample_config w' ≡ read_write)
    × ((write_with memory sample_config add_guest w').0 ≡ ok 0)
    × ((write_with memory sample_config add_guest w').1.primary_db
        ≡ (add_guest (memory_prisma.select_one without_primary.primary_db).1).1)
probe_nodes-recovers_example =
    probe_nodes-recovers memory sample_config without_primary add_guest 0 refl refl
