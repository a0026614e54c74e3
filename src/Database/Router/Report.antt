-- ===== src/Database/Router/Report.antt =====
-- `getState` of DbRouter, src/database/db-router.service.ts: what the router says of itself.
use booking_hotel.Prelude.{ℕ, not, Option, none, some, if◌then◌else◌}
use booking_hotel.Runtime.Platform.{Platform}
use booking_hotel.Runtime.World.{World, Config, NodeHealth, RouterStats}
use booking_hotel.Database.Router.{Topology, Mode, topology, mode_of}

pub data ReadsFrom : Type 0 where
  from_primary from_replica from_primary_fallback : ReadsFrom

-- `nodes.replica` is `none` where no Replica is configured.
pub record RouterReport : Type 0 where
  pub topology : Topology
  pub mode : Mode
  pub reads_from : ReadsFrom
  pub sticky_ttl_ms : ℕ
  pub primary : NodeHealth
  pub replica : Option NodeHealth
  pub stats : RouterStats

module _ (P : Platform) (c : Config) where
  unfoldable pub reads_from_of : World P → ReadsFrom
  reads_from_of w =
      if not c.replica_enabled
      then from_primary
      else if w.router.replica_health.healthy
      then from_replica
      else from_primary_fallback

  unfoldable pub get_state : World P → RouterReport
  unfolding reads_from_of
  get_state w = record {
    topology = topology P c;
    mode = mode_of P c w;
    reads_from = reads_from_of w;
    sticky_ttl_ms = c.sticky_ttl_ms;
    primary = w.router.primary_health;
    replica = if c.replica_enabled then some w.router.replica_health else none;
    stats = w.router.stats;
  }
