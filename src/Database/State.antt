-- ===== src/Database/State.antt =====
-- The state that DbRouter keeps, src/database/db-router.service.ts: node health, counters, and
-- what a request's context records of its route.
use booking_hotel.Prelude.{
  ◌+◌, ◌-◌, Bool, true, false, none, some, List, [], ◌∷◌, ◌++◌, JsString, js, if◌then◌else◌, length,
  any, trim, split, get_or,
}
use booking_hotel.Runtime.Errors.{Error, http, message}
use booking_hotel.Runtime.Platform.{Platform}
use booking_hotel.Runtime.World.{
  DbNode, primary, replica, Route, eventual, strong, sticky, primary_preferred, fallback,
  primary_only, degraded, write, NodeHealth, RouterStats, RequestContext, World,
}

abbrev pub same_node : DbNode → DbNode → Bool
same_node primary primary = true
same_node replica replica = true
same_node _ _ = false

abbrev pub same_route : Route → Route → Bool
same_route eventual eventual = true
same_route strong strong = true
same_route sticky sticky = true
same_route primary_preferred primary_preferred = true
same_route fallback fallback = true
same_route primary_only primary_only = true
same_route degraded degraded = true
same_route write write = true
same_route _ _ = false

-- `Set.add` on the insertion order.
unfoldable pub add_once : {A : Type 0} → (A → A → Bool) → A → List A → List A
add_once same a xs = if any (same a) xs then xs else xs ++ a ∷ []

-- The last line of a message, trimmed.
unfoldable pub short_error : Error → JsString
unfolding trim split
short_error e = let lines = split 10 (trim (message e)) in trim (get_or lines (length lines - 1) [])

unfoldable pub read_only_error : Error
unfolding js
read_only_error = http 503 (
    js "Primary Node недоступний: операції запису тимчасово заблоковані, читання каталогу доступне")

unfoldable pub unavailable_error : Route → Error
unfolding js
unavailable_error strong =
    http 503 (js "Primary Node недоступний: строго узгоджене читання неможливе")
unavailable_error _ = http 503 (js "Жоден вузол БД недоступний")

unfoldable pub count_read : DbNode → Route → RouterStats → RouterStats
count_read node write s = s
count_read primary _ s = record s { reads_primary = s.reads_primary + 1 }
count_read replica _ s = record s { reads_replica = s.reads_replica + 1 }

unfoldable pub count_route : Route → RouterStats → RouterStats
count_route route s = record s {
  routes = λ r. if same_route route r then s.routes r + 1 else s.routes r;
}

-- The sets of the request context, and the two headers while they can still be set.
unfoldable pub note_route : DbNode → Route → RequestContext → RequestContext
unfolding add_once
note_route node route ctx =
    let nodes = add_once same_node node ctx.nodes in
    let routes = add_once same_route route ctx.routes in
    record ctx {
      nodes = nodes;
      routes = routes;
      headers =
          if ctx.headers_sent
          then ctx.headers
          else record ctx.headers { db_node = nodes; db_route = routes };
    }

module _ {P : Platform} where
  unfoldable pub set_health : DbNode → NodeHealth → World P → World P
  set_health primary h w = record w { router = record w.router { primary_health = h } }
  set_health replica h w = record w { router = record w.router { replica_health = h } }

  abbrev pub health_of : DbNode → World P → NodeHealth
  health_of primary w = w.router.primary_health
  health_of replica w = w.router.replica_health

  unfoldable pub mark_down : DbNode → Error → World P → World P
  unfolding set_health
  mark_down node e w =
      set_health node
        (record (health_of node w) { healthy = false; last_error = some (short_error e) }) w

  unfoldable pub mark_up : DbNode → World P → World P
  unfolding set_health
  mark_up node w =
      set_health node (record (health_of node w) { healthy = true; last_error = none }) w

  unfoldable pub reject_write : World P → World P
  reject_write w =
      let s = w.router.stats in
      record w {
        router = record w.router { stats = record s { rejected_writes = s.rejected_writes + 1 } };
      }

  unfoldable pub count_write : World P → World P
  count_write w =
      let s = w.router.stats in
      record w { router = record w.router { stats = record s { writes = s.writes + 1 } } }

  unfoldable pub track : DbNode → Route → World P → World P
  unfolding count_read count_route note_route
  track node route w = record w {
    router = record w.router { stats = count_route route (count_read node route w.router.stats) };
    context = elim w.context [ none ↦ none | some ctx ↦ some (note_route node route ctx) ];
  }

  -- `lastCheckAt = new Date().toISOString()`
  unfoldable pub stamp : DbNode → World P → World P
  unfolding set_health
  stamp node w = set_health node (record (health_of node w) { last_check_at = some w.now }) w
