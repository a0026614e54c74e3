-- ===== src/Database/Router/Failover.antt =====
-- Failures of a node: Read-Only Mode without the Primary, Primary Fallback without the Replica.
use booking_hotel.Database.State.{
  unavailable_error, reject_write, read_only_error, mark_down, track,
}
use booking_hotel.Cache.Service.Frame.{has_flag-Quiet, Quiet}
use booking_hotel.Database.ConnectionErrors.{is_recovery_conflict, is_connection_error}
use booking_hotel.Prelude.{refl, ◌&&◌, inr, not, arith, inl, ◌⊎◌, false, Option-cases, true, ◌≡◌}
use booking_hotel.Database.Router.{
  primary_preferred_read, strong_read, sticky_key, may_degrade, write_with, eventual_read,
  read_eventual, read_degraded, read_replica, read_primary, is_sticky, read,
}
use booking_hotel.Runtime.Errors.{err, ok, Error}
use booking_hotel.Runtime.World.{
  primary_preferred, strong, sticky, Route, on_primary, on_replica, World, Config,
}
use booking_hotel.Runtime.Platform.{Query, Platform}

module _ (P : Platform) (c : Config) (w : World P) where
  -- Asking whether the session is sticky always answers, and leaves nodes and health alone.
  pub is_sticky-Quiet : Quiet (is_sticky P c) w
  unfolding is_sticky
  is_sticky-Quiet = elim (Option-cases w.context) [
    | inl e ↦ record { value = false; returns = ground arith; only = ground arith }
    | inr (ctx, e) ↦
        let q = has_flag-Quiet P c w (sticky_key ctx.session_id) in
        let returned = q.returns in
        let only = q.only in
        record {
          value = elim ((is_sticky P c w).0) [ ok b ↦ b | err e ↦ false ];
          returns = ground arith;
          only = ground arith;
        }
  ]

module _ (P : Platform) (c : Config) {A : Type 0} (query : Query P.prisma.Db A) where
  read_degraded_ok :
      (route : Route) (w : World P) (b : A)
      → may_degrade route ≡ true
      → c.replica_enabled ≡ true
      → w.router.replica_health.healthy ≡ true
      → w.router.primary_health.healthy ≡ false
      → (query w.replica_db).0 ≡ ok b
      → ((read_primary P c query route w).0 ≡ ok b)
        × ((read_primary P c query route w).1.primary_db ≡ w.primary_db)
  unfolding read_primary read_degraded on_replica track
  read_degraded_ok route w b may en up down e = ground arith

  read_replica_ok :
      (w : World P) (b : A)
      → (query w.replica_db).0 ≡ ok b
      → ((read_replica P c query w).0 ≡ ok b)
        × ((read_replica P c query w).1.primary_db ≡ w.primary_db)
  unfolding read_replica on_replica track
  read_replica_ok w b e = ground arith

  read_eventual_ok :
      (w : World P) (b : A)
      → c.replica_enabled ≡ true
      → w.router.replica_health.healthy ≡ true
      → w.router.primary_health.healthy ≡ false
      → (query w.replica_db).0 ≡ ok b
      → ((read P c query eventual_read w).0 ≡ ok b)
        × ((read P c query eventual_read w).1.primary_db ≡ w.primary_db)
  unfolding read read_eventual
  read_eventual_ok w b en up down e =
      let q = is_sticky-Quiet P c w in
      let returned = q.returns in
      let only = q.only in
      let w' = (is_sticky P c w).1 in
      ground (
        arith,
        only.router,
        only.replica_db,
        only.primary_db,
        read_degraded_ok sticky w' b,
        read_replica_ok w' b,
      )

  -- Read-Only Mode: while the Primary is taken for down and a configured, healthy Replica answers
  -- the query, a write is refused with 503 and runs nowhere, a strong read is refused with 503,
  -- and eventual and primary-preferred reads return the Replica's answer, sticky session or not.
  -- The Primary is not contacted.
  pub read_only_mode :
      (w : World P) (b : A)
      → c.replica_enabled ≡ true
      → w.router.primary_health.healthy ≡ false
      → w.router.replica_health.healthy ≡ true
      → (query w.replica_db).0 ≡ ok b
      → (write_with P c query w ≡ (err read_only_error, reject_write w))
        × (read P c query strong_read w ≡ (err (unavailable_error strong), w))
        × ((read P c query eventual_read w).0 ≡ ok b)
        × ((read P c query eventual_read w).1.primary_db ≡ w.primary_db)
        × ((read P c query primary_preferred_read w).0 ≡ ok b)
        × ((read P c query primary_preferred_read w).1.primary_db ≡ w.primary_db)
  read_only_mode w b en down up e =
      let (ev, ev_same) = read_eventual_ok w b en up down e in
      let (pp, pp_same) = read_degraded_ok primary_preferred w b refl en up down e in
      (
        unfold write_with in ground arith,
        unfold read read_primary read_degraded in ground arith,
        ev,
        ev_same,
        unfold read in pp,
        unfold read in pp_same,
      )

  -- An error after which the Primary is asked.
  abbrev pub FallsBack : Error → Type 0
  FallsBack e = (is_connection_error e ≡ true) ⊎ (is_recovery_conflict e ≡ true)

  read_replica_fallback :
      (w : World P) (e : Error) (b : A)
      → FallsBack e
      → w.router.primary_health.healthy ≡ true
      → (query w.replica_db).0 ≡ err e
      → (query w.primary_db).0 ≡ ok b
      → ((read_replica P c query w).0 ≡ ok b)
        × ((read_replica P c query w).1.router.replica_health.healthy
            ≡ not (is_connection_error e) && w.router.replica_health.healthy)
  unfolding read_replica on_replica read_primary on_primary track mark_down
  read_replica_fallback w e b f up re pe = ground arith

  -- Primary Fallback: with both nodes taken for healthy, where the Replica answers an eventual
  -- read of a session that is not sticky with a connection error or a recovery conflict and the
  -- Primary answers it, the read returns the Primary's answer; only the connection error takes the
  -- Replica out of service.
  pub primary_fallback :
      (w : World P) (e : Error) (b : A)
      → FallsBack e
      → c.replica_enabled ≡ true
      → (is_sticky P c w).0 ≡ ok false
      → w.router.replica_health.healthy ≡ true
      → w.router.primary_health.healthy ≡ true
      → (query w.replica_db).0 ≡ err e
      → (query w.primary_db).0 ≡ ok b
      → ((read P c query eventual_read w).0 ≡ ok b)
        × ((read P c query eventual_read w).1.router.replica_health.healthy
            ≡ not (is_connection_error e))
  unfolding read read_eventual
  primary_fallback w e b f en calm rup pup re pe =
      let q = is_sticky-Quiet P c w in
      let only = q.only in
      let w' = (is_sticky P c w).1 in
      ground (arith, only.router, only.replica_db, only.primary_db, read_replica_fallback w' e b f)
