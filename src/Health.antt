-- ===== src/Health.antt =====
-- HealthController, src/health/health.controller.ts: the readiness probe. Uptime, the time of the
-- check, how long it took and the instance's name are left out.
pub mod Verdict
mod Tests
use booking_hotel.Prelude.{
  Option, none, some, map, JsString, ℕ, Bool, true, false, not, ◌&&◌, ◌||◌, any, if◌then◌else◌,
  List,
}
use booking_hotel.Runtime.Platform.{Platform}
use booking_hotel.Runtime.World.{World, Action, Config, CacheState, ShardHealth}
use booking_hotel.Cache.Service.{Connection, get_stats}
use booking_hotel.Database.Router.{
  Topology, topology, Mode, mode_of, probe_nodes, read_write, read_only, unavailable,
}
use booking_hotel.Database.Router.Report.{ReadsFrom, reads_from_of}
use booking_hotel.Sharding.Router.Report.{get_health}
use booking_hotel.Sharding.Router.{check_health}

pub data HealthStatus : Type 0 where
  up degraded down : HealthStatus

pub data ReplicaLink : Type 0 where
  connected disconnected disabled : ReplicaLink

-- `shards` is `none` for 'DISABLED', and else says of each shard whether it is 'CONNECTED'.
pub record HealthReport : Type 0 where
  pub status : HealthStatus
  pub http_status : ℕ
  pub database : Bool
  pub mode : Mode
  pub topology : Topology
  pub reads_from : ReadsFrom
  pub replica : ReplicaLink
  pub shards : Option (List (JsString × Bool))
  pub cache : Connection × CacheState

abbrev pub is_unavailable : Mode → Bool
is_unavailable unavailable = true
is_unavailable _ = false

module _ (P : Platform) (c : Config) where
  -- `db.topology === 'primary+replica' && !db.nodes.replica.healthy`
  abbrev pub replica_down : World P → Bool
  replica_down w = c.replica_enabled && not w.router.replica_health.healthy

  -- `this.shards.sharded && shards.some((s) => !s.healthy)`
  abbrev pub shard_down : World P → Bool
  shard_down w = c.sharded && any (λ (h : ShardHealth). not h.healthy) w.shards.health

  abbrev link : JsString × Option ShardHealth → JsString × Bool
  link (name, none) = (name, false)
  link (name, some h) = (name, h.healthy)

  -- The report on a state that the two checks have left.
  unfoldable pub report : World P → HealthReport
  report w = record {
    status =
        if is_unavailable (mode_of P c w)
        then down
        else if not w.router.primary_health.healthy || replica_down w || shard_down w
        then degraded
        else up;
    http_status = if is_unavailable (mode_of P c w) then 503 else 200;
    database = w.router.primary_health.healthy;
    mode = mode_of P c w;
    topology = topology P c;
    reads_from = reads_from_of P c w;
    replica =
        if c.replica_enabled
        then (if replica_down w then disconnected else connected)
        else disabled;
    shards = if c.sharded then some (map link (get_health P c w)) else none;
    cache = get_stats P c w;
  }

  -- `checkHealth`; the two checks touch different fields.
  unfoldable pub health : World P → HealthReport × World P
  health w = let w' = check_health P c (probe_nodes P c w) in (report w', w')
