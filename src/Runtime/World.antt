-- ===== src/Runtime/World.antt =====
-- The state of one application instance while it serves requests, one at a time: the nodes behind
-- its clients, the fields of CacheService (src/cache/cache.service.ts), of DbRouter
-- (src/database/db-router.service.ts) and of ShardRouter (src/sharding/shard-router.service.ts),
-- the request context (src/database/request-context.ts), the clock and the supplies of random
-- values. A method is an action: the state comes back beside an error too.
use booking_hotel.Prelude.{ℕ, suc, Bool, Option, none, some, List, JsString, get_elem?, set}
use booking_hotel.Runtime.Errors.{Error, Result, ok, err}
use booking_hotel.Runtime.Platform.{Platform, Query}
use booking_hotel.Sharding.Key.{ShardStrategy}

-- What the environment variables set at the start.
pub record Config : Type 0 where
  pub redis_url : Bool
  pub replica_enabled : Bool
  pub sticky_ttl_ms : ℕ
  pub sharded : Bool
  pub shard_count : ℕ
  pub strategy : ShardStrategy
  pub bucket_map : List ℕ
  pub saga_fault_injection : Bool

pub record CacheState : Type 0 where
  pub hits : ℕ
  pub misses : ℕ
  pub bypasses : ℕ
  pub invalidations : ℕ
  pub last_error_log_at : ℕ

pub data DbNode : Type 0 where
  primary replica : DbNode

pub data Route : Type 0 where
  eventual strong sticky primary_preferred fallback primary_only degraded write : Route

pub record NodeHealth : Type 0 where
  pub healthy : Bool
  pub last_check_at : Option ℕ
  pub last_error : Option JsString

pub record RouterStats : Type 0 where
  pub reads_primary : ℕ
  pub reads_replica : ℕ
  pub writes : ℕ
  pub rejected_writes : ℕ
  pub routes : Route → ℕ

pub record RouterState : Type 0 where
  pub primary_health : NodeHealth
  pub replica_health : NodeHealth
  pub local_sticky : List (JsString × ℕ)
  pub stats : RouterStats

pub record ShardHealth : Type 0 where
  pub healthy : Bool
  pub last_error : Option JsString

pub record ShardStats : Type 0 where
  pub reads : ℕ
  pub writes : ℕ
  pub fan_out_queries : ℕ
  pub errors : ℕ

pub record Totals : Type 0 where
  pub local : ℕ
  pub fan_out : ℕ
  pub partial_fan_out : ℕ

pub record ShardState : Type 0 where
  pub health : List ShardHealth
  pub stats : List ShardStats
  pub totals : Totals

-- The response headers that the two routers set.
pub record Headers : Type 0 where
  pub db_node : List DbNode
  pub db_route : List Route
  pub shards : List JsString
  pub shard_bucket : Option ℕ
  pub shard_fanout : Option ℕ
  pub shard_partial : List JsString

pub record RequestContext : Type 0 where
  pub session_id : JsString
  pub nodes : List DbNode
  pub routes : List Route
  pub headers_sent : Bool
  pub headers : Headers

pub record World (P : Platform) : Type 0 where
  pub primary_db : P.prisma.Db
  pub replica_db : P.prisma.Db
  pub shard_dbs : List P.prisma.Db
  pub redis : P.redis.Client
  pub cache : CacheState
  pub router : RouterState
  pub shards : ShardState
  pub context : Option RequestContext
  pub now : ℕ
  pub next_uuid : ℕ
  pub next_random : ℕ

abbrev pub Action : Platform → Type 0 → Type 0
Action P A = World P → Result A × World P

module _ {P : Platform} where
  abbrev pub pure : {A : Type 0} → A → Action P A
  pure a w = (ok a, w)

  abbrev pub throw : {A : Type 0} → Error → Action P A
  throw e w = (err e, w)

  infixl 5 ◌>>=◌ ◌>>◌
  abbrev pub ◌>>=◌ : {A B : Type 0} → Action P A → (A → Action P B) → Action P B
  ◌>>=◌ m f w = let (r, w') = m w in elim r [ ok a ↦ f a w' | err e ↦ (err e, w') ]

  abbrev pub ◌>>◌ : {A B : Type 0} → Action P A → Action P B → Action P B
  m >> k = m >>= λ _. k

  abbrev pub modify : (World P → World P) → Action P (Unit {0})
  modify f w = (ok tt, f w)

  abbrev pub gets : {A : Type 0} → (World P → A) → Action P A
  gets f w = (ok (f w), w)

  -- A callback on the client of a node.
  unfoldable pub on_primary : {A : Type 0} → Query P.prisma.Db A → Action P A
  on_primary query w = let (r, db) = query w.primary_db in (r, record w { primary_db = db })

  unfoldable pub on_replica : {A : Type 0} → Query P.prisma.Db A → Action P A
  on_replica query w = let (r, db) = query w.replica_db in (r, record w { replica_db = db })

  -- `clients[index]`; no call reaches an index without a client.
  unfoldable pub on_shard : {A : Type 0} → ℕ → Query P.prisma.Db A → Error → Action P A
  on_shard index query missing w = elim (get_elem? w.shard_dbs index) [
    | none ↦ (err missing, w)
    | some db ↦ let (r, db') = query db in (r, record w { shard_dbs = set w.shard_dbs index db' })
  ]

  unfoldable pub on_redis : {A : Type 0} → Query P.redis.Client A → Action P A
  on_redis query w = let (r, client) = query w.redis in (r, record w { redis = client })

  -- `randomUUID()`
  unfoldable pub random_uuid : Action P JsString
  random_uuid w = (ok (P.js.uuid w.next_uuid), record w { next_uuid = suc w.next_uuid })

  -- `Math.random()`
  unfoldable pub random : Action P ℕ
  random w = (ok (P.js.random w.next_random), record w { next_random = suc w.next_random })
