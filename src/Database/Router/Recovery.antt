-- ===== src/Database/Router/Recovery.antt =====
-- The probe of the nodes, src/database/db-router.service.ts: its verdicts and the end of Read-Only
-- Mode.
use booking_hotel.Prelude.{◌≡◌, true, false, if◌then◌else◌, Bool, arith}
use booking_hotel.Runtime.Errors.{Result, ok, err}
use booking_hotel.Runtime.Platform.{Platform, Query}
use booking_hotel.Runtime.World.{World, Config, on_primary, on_replica}
use booking_hotel.Database.ConnectionErrors.{is_connection_error}
use booking_hotel.Database.State.{mark_up, mark_down, set_health, stamp}
use booking_hotel.Database.Router.{probe_nodes, settle, mode_of, read_write, write_with}
use booking_hotel.Database.Router.Isolation.{write_with-nodes}

-- A node that answers is up, one that cannot be reached is down, and another error says nothing.
abbrev pub verdict : Result (Unit {0}) → Bool → Bool
verdict (ok _) before = true
verdict (err e) before = if is_connection_error e then false else before

module _ (P : Platform) (c : Config) (w : World P) where
  probe_nodes-primary :
      let (r, db) = P.prisma.select_one w.primary_db in
      ((probe_nodes P c w).router.primary_health.healthy
        ≡ verdict r w.router.primary_health.healthy)
      × ((probe_nodes P c w).primary_db ≡ db)
  unfolding probe_nodes settle on_primary on_replica mark_up mark_down set_health stamp
  probe_nodes-primary = ground arith

  probe_nodes-replica :
      let (r, db) = P.prisma.select_one w.replica_db in
      (probe_nodes P c w).router.replica_health.healthy ≡ (
        if c.replica_enabled
        then verdict r w.router.replica_health.healthy
        else w.router.replica_health.healthy)
  unfolding probe_nodes settle on_primary on_replica mark_up mark_down set_health stamp
  probe_nodes-replica = ground arith

  -- A probe takes each node for healthy if the node answers, for down if its answer is a connection
  -- error, and for what it was otherwise; the Replica is probed only where one is configured.
  pub probe_nodes-verdicts :
      let w' = probe_nodes P c w in
      (w'.router.primary_health.healthy
        ≡ verdict (P.prisma.select_one w.primary_db).0 w.router.primary_health.healthy)
      × (w'.router.replica_health.healthy ≡ (
          if c.replica_enabled
          then verdict (P.prisma.select_one w.replica_db).0 w.router.replica_health.healthy
          else w.router.replica_health.healthy))
  probe_nodes-verdicts = (probe_nodes-primary.0, probe_nodes-replica)

module _ (P : Platform) (c : Config) {A : Type 0} where
  -- Read-Only Mode ends with the first probe that the Primary answers, however it was taken before:
  -- the mode is read-write again, and the next write that the Primary accepts is run there and
  -- returns the Primary's answer.
  pub probe_nodes-recovers :
      (w : World P) (mutation : Query P.prisma.Db A) (a : A)
      → (P.prisma.select_one w.primary_db).0 ≡ ok tt
      → (mutation (P.prisma.select_one w.primary_db).1).0 ≡ ok a
      → let w' = probe_nodes P c w in
        (mode_of P c w' ≡ read_write)
        × ((write_with P c mutation w').0 ≡ ok a)
        × ((write_with P c mutation w').1.primary_db
            ≡ (mutation (P.prisma.select_one w.primary_db).1).1)
  probe_nodes-recovers w mutation a answers accepts =
      let w' = probe_nodes P c w in
      let (up, db) = probe_nodes-primary P c w in
      let (_, _, here, returns) = write_with-nodes P c mutation w' in
      let up' : w'.router.primary_health.healthy ≡ true = ground (arith, up, answers) in
      (
        unfold mode_of in ground (arith, up'),
        (returns a).1 (up', rw db accepts),
        ground (arith, here, up', db),
      )
