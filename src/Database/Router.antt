-- ===== src/Database/Router.antt =====
-- DbRouter, src/database/db-router.service.ts: which node a read or a write goes to, sticky
-- sessions, and the health of the two nodes. Log lines and the timer are left out.
mod Tests
pub mod Isolation
pub mod Routing
pub mod Failover
pub mod Recovery
pub mod Sticky
pub mod Sessions
pub mod Report
use booking_hotel.Database.ConnectionErrors.{is_recovery_conflict, is_connection_error}
use booking_hotel.Cache.Service.{set_flag, has_flag}
use booking_hotel.Runtime.Errors.{Result, ok, err}
use booking_hotel.Runtime.World.{
  fallback, degraded, eventual, write, sticky, primary_only, pure, replica, gets, primary_preferred,
  primary, ◌>>=◌, strong, on_primary, on_replica, DbNode, Action, World, Config, Route,
}
use booking_hotel.Runtime.Platform.{Query, Platform}
use booking_hotel.Prelude.{
  [], ◌+◌, some, ltb, ◌&&◌, str_eq, keep, none, false, if◌then◌else◌, ◌∷◌, true, ◌++◌, List, Bool,
  ℕ, Option, JsString, js,
}
use booking_hotel.Database.State.{
  short_error, health_of, unavailable_error, count_write, set_health, mark_up, reject_write, track,
  read_only_error, stamp, mark_down,
}

pub data Consistency : Type 0 where
  eventual_read strong_read primary_preferred_read : Consistency

pub data Topology : Type 0 where
  primary_and_replica single_primary : Topology

pub data Mode : Type 0 where
  read_write read_only unavailable : Mode

unfoldable pub sticky_key : JsString → JsString
unfolding js
sticky_key session_id = js "booking:ryw:" ++ session_id

-- `Map.set` and `Map.get` of `localSticky`.
unfoldable pub sticky_set : JsString → ℕ → List (JsString × ℕ) → List (JsString × ℕ)
sticky_set k t [] = (k, t) ∷ []
sticky_set k t ((j, u) ∷ m) = if str_eq j k then (j, t) ∷ m else (j, u) ∷ sticky_set k t m

unfoldable pub sticky_get : JsString → List (JsString × ℕ) → Option ℕ
sticky_get k [] = none
sticky_get k ((j, u) ∷ m) = if str_eq j k then some u else sticky_get k m

-- `localUntil && localUntil > Date.now()`
abbrev pub lasts : Option ℕ → ℕ → Bool
lasts none now = false
lasts (some t) now = ltb now t

-- A route that prefers an old answer from the Replica to none.
abbrev pub may_degrade : Route → Bool
may_degrade sticky = true
may_degrade primary_preferred = true
may_degrade _ = false

module _ (P : Platform) (c : Config) where
  -- `localSticky.set(sessionId, Date.now() + stickyTtlMs)`
  unfoldable pub stick : JsString → World P → World P
  unfolding sticky_set
  stick session_id w = record w {
    router = record w.router {
      local_sticky = sticky_set session_id (w.now + c.sticky_ttl_ms) w.router.local_sticky;
    };
  }

  unfoldable pub remember_write : Action P (Unit {0})
  remember_write w = elim w.context [
    | none ↦ (ok tt, w)
    | some ctx ↦
        if c.replica_enabled && ltb 0 c.sticky_ttl_ms
        then set_flag P c (sticky_key ctx.session_id) c.sticky_ttl_ms (stick ctx.session_id w)
        else (ok tt, w)
  ]

  abbrev pub flag_is_set : Option Bool → Bool
  flag_is_set none = false
  flag_is_set (some b) = b

  unfoldable pub is_sticky : Action P Bool
  is_sticky w = elim w.context [
    | none ↦ (ok false, w)
    | some ctx ↦
        if ltb 0 c.sticky_ttl_ms
        then (if lasts (sticky_get ctx.session_id w.router.local_sticky) w.now
            then (ok true, w)
            else (has_flag P c (sticky_key ctx.session_id) >>= λ flag. pure (flag_is_set flag)) w)
        else (ok false, w)
  ]

  -- `write(mutation)`
  unfoldable pub write_with : {A : Type 0} → Query P.prisma.Db A → Action P A
  write_with mutation w = elim w.router.primary_health.healthy [
    | false ↦ (err read_only_error, reject_write w)
    | true ↦
        let (r, w') = on_primary mutation w in
        elim r [
          | ok a ↦ (remember_write >>= λ _. pure a) (track primary write (count_write w'))
          | err e ↦ elim (is_connection_error e) [
            | true ↦ (err read_only_error, reject_write (mark_down primary e w'))
            | false ↦ (err e, w')
          ]
        ]
  ]

  -- The part of `readPrimary` that is reached when the Primary did not answer.
  unfoldable pub read_degraded : {A : Type 0} → Query P.prisma.Db A → Route → Action P A
  read_degraded query route w =
      if may_degrade route && c.replica_enabled && w.router.replica_health.healthy
      then (on_replica query >>= λ a w'. (ok a, track replica degraded w')) w
      else (err (unavailable_error route), w)

  unfoldable pub read_primary : {A : Type 0} → Query P.prisma.Db A → Route → Action P A
  read_primary query route w = elim w.router.primary_health.healthy [
    | false ↦ read_degraded query route w
    | true ↦
        let (r, w') = on_primary query w in
        elim r [
          | ok a ↦ (ok a, track primary route w')
          | err e ↦ elim (is_connection_error e) [
            | true ↦ read_degraded query route (mark_down primary e w')
            | false ↦ (err e, w')
          ]
        ]
  ]

  unfoldable pub read_replica : {A : Type 0} → Query P.prisma.Db A → Action P A
  read_replica query w =
      let (r, w') = on_replica query w in
      elim r [
        | ok a ↦ (ok a, track replica eventual w')
        | err e ↦ elim (is_connection_error e) [
          | true ↦ read_primary query fallback (mark_down replica e w')
          | false ↦ elim (is_recovery_conflict e) [
            | true ↦ read_primary query fallback w'
            | false ↦ (err e, w')
          ]
        ]
      ]

  -- `read(query, EVENTUAL)` where a Replica is configured.
  unfoldable pub read_eventual : {A : Type 0} → Query P.prisma.Db A → Action P A
  read_eventual query = do
    stuck ← is_sticky
    healthy ← gets (λ w. w.router.replica_health.healthy)
    if stuck
        then read_primary query sticky
        else if healthy
        then read_replica query
        else read_primary query fallback

  unfoldable pub read : {A : Type 0} → Query P.prisma.Db A → Consistency → Action P A
  read query strong_read = read_primary query strong
  read query primary_preferred_read = read_primary query primary_preferred
  read query eventual_read =
      if c.replica_enabled then read_eventual query else read_primary query primary_only

  -- `probeNodes` without the concurrency of the two probes, which touch different fields.
  unfoldable pub prune_sticky : ℕ → List (JsString × ℕ) → List (JsString × ℕ)
  prune_sticky now m = keep (λ entry. ltb now entry.1) m

  unfoldable pub settle : DbNode → Result (Unit {0}) → World P → World P
  settle node (ok _) w = stamp node (mark_up node w)
  settle node (err e) w =
      if is_connection_error e
      then stamp node (mark_down node e w)
      else stamp node
          (set_health node (record (health_of node w) { last_error = some (short_error e) }) w)

  unfoldable pub probe_nodes : World P → World P
  unfolding prune_sticky settle
  probe_nodes w =
      let w0 = record w {
        router = record w.router { local_sticky = prune_sticky w.now w.router.local_sticky };
      } in
      let (r, w1) = on_primary P.prisma.select_one w0 in
      let w2 = settle primary r w1 in
      if c.replica_enabled
      then (let (r', w3) = on_replica P.prisma.select_one w2 in settle replica r' w3)
      else w2

  unfoldable pub mode_of : World P → Mode
  mode_of w =
      if w.router.primary_health.healthy
      then read_write
      else if c.replica_enabled && w.router.replica_health.healthy
      then read_only
      else unavailable

  unfoldable pub topology : Topology
  topology = if c.replica_enabled then primary_and_replica else single_primary
