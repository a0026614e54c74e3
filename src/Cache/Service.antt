-- ===== src/Cache/Service.antt =====
-- CacheService, src/cache/cache.service.ts: cache-aside reads, versions, invalidation and flags.
-- No Redis failure reaches the caller. Log lines are left out, but not the time stamp that limits
-- them. `JSON.stringify` and `JSON.parse` of the cached type are arguments of `get_or_set`; the
-- second throws on a text that is not JSON.
pub mod Degradation
pub mod Frame
mod Tests
use booking_hotel.Prelude.{
  ℕ, ◌+◌, ◌-◌, ◌*◌, ◌/◌, ◌^◌, Bool, true, false, ◌&&◌, Option, none, some, List, [], ◌∷◌, JsString,
  js, ltb, ◌==◌, if◌then◌else◌, length,
}
use booking_hotel.Runtime.Errors.{Error, Result, ok, err}
use booking_hotel.Runtime.Platform.{Platform, Query}
use booking_hotel.Runtime.World.{
  Config, CacheState, World, Action, pure, throw, ◌>>=◌, ◌>>◌, modify, gets, on_redis, random,
}

pub data CacheStatus : Type 0 where
  hit miss bypass : CacheStatus

pub record CacheResult (T : Type 0) : Type 0 where
  pub value : T
  pub cache : CacheStatus
  pub key : JsString

pub record Ttl : Type 0 where
  pub base : ℕ
  pub jitter : ℕ

pub data Connection : Type 0 where
  connected disconnected disabled : Connection

module _ (P : Platform) (c : Config) where
  -- `this.client && this.isReady`
  unfoldable pub ready : World P → Bool
  ready w = c.redis_url && P.redis.is_ready w.redis

  unfoldable pub log_redis_error : World P → World P
  log_redis_error w =
      if ltb 10000 (w.now - w.cache.last_error_log_at)
      then record w { cache = record w.cache { last_error_log_at = w.now } }
      else w

  unfoldable pub count_hit : World P → World P
  count_hit w = record w { cache = record w.cache { hits = w.cache.hits + 1 } }

  unfoldable pub count_miss : World P → World P
  count_miss w = record w { cache = record w.cache { misses = w.cache.misses + 1 } }

  unfoldable pub count_bypass : World P → World P
  count_bypass w = record w { cache = record w.cache { bypasses = w.cache.bypasses + 1 } }

  unfoldable pub count_invalidations : ℕ → World P → World P
  count_invalidations n w = record w {
    cache = record w.cache { invalidations = w.cache.invalidations + n };
  }

  -- `try { return then(await call) } catch (err) { this.logRedisError(…); return otherwise }`
  unfoldable pub guarded :
      {A B : Type 0} → Query P.redis.Client A → (A → Action P B) → Action P B → Action P B
  unfolding on_redis log_redis_error
  guarded call next otherwise w =
      let (r, w') = on_redis call w in
      elim r [ ok a ↦ next a w' | err e ↦ otherwise (log_redis_error w') ]

  unfoldable pub bypass_load : {T : Type 0} → JsString → Action P T → Action P (CacheResult T)
  unfolding count_bypass
  bypass_load key loader = do
    value ← loader
    modify count_bypass
    pure (record { value = value; cache = bypass; key = key })

  -- `ttl.base + Math.floor(Math.random() * (ttl.jitter + 1))`
  unfoldable pub jittered : Ttl → ℕ → ℕ
  jittered ttl draw = ttl.base + (draw * (ttl.jitter + 1)) / 2 ^ 53

  -- The part of `getOrSet` behind a miss.
  unfoldable pub fill :
      {T : Type 0} → (T → JsString) → JsString → Ttl → Action P T → Action P (CacheResult T)
  unfolding guarded count_miss random jittered
  fill stringify key ttl loader = do
    value ← loader
    modify count_miss
    draw ← random
    guarded (P.redis.set_ex key (stringify value) (jittered ttl draw)) (λ _. pure tt) (pure tt)
    pure (record { value = value; cache = miss; key = key })

  -- `JSON.parse(cached)`, which is outside of the `try` block.
  abbrev parsed : {T : Type 0} → Result T → Action P T
  parsed r w = (r, w)

  unfoldable pub get_or_set :
      {T : Type 0}
      → (T → JsString)
      → (JsString → Result T)
      → JsString
      → Ttl
      → Action P T
      → Action P T
      → Action P (CacheResult T)
  unfolding ready guarded bypass_load fill count_hit
  get_or_set stringify parse key ttl loader bypass_loader w = elim (ready w) [
    | false ↦ bypass_load key bypass_loader w
    | true ↦
        guarded (P.redis.get key)
          (λ cached. elim cached [
            | some text ↦
                modify count_hit
                >> (parsed (parse text) >>= λ value.
                    pure (record { value = value; cache = hit; key = key }))
            | none ↦ fill stringify key ttl loader
          ])
          (bypass_load key bypass_loader) w
  ]

  -- `Number(await this.client.get(key)) || 0`; `Number(null)` is 0.
  unfoldable pub version_of : Option JsString → ℕ
  version_of none = 0
  version_of (some text) = P.js.number_or_zero text

  unfoldable pub get_version : JsString → Action P ℕ
  unfolding ready guarded version_of
  get_version key w = elim (ready w) [
    | false ↦ (ok 0, w)
    | true ↦ guarded (P.redis.get key) (λ cached. pure (version_of cached)) (pure 0) w
  ]

  unfoldable pub invalidate : List JsString → Action P (Unit {0})
  unfolding ready guarded count_invalidations
  invalidate [] w = (ok tt, w)
  invalidate (key ∷ keys) w = elim (ready w) [
    | false ↦ (ok tt, w)
    | true ↦
        guarded (P.redis.del (key ∷ keys)) (λ _. modify (count_invalidations (length (key ∷ keys))))
          (pure tt) w
  ]

  unfoldable pub bump_version : JsString → Action P (Unit {0})
  unfolding ready guarded count_invalidations
  bump_version key w = elim (ready w) [
    | false ↦ (ok tt, w)
    | true ↦ guarded (P.redis.incr key) (λ _. modify (count_invalidations 1)) (pure tt) w
  ]

  unfoldable pub set_flag : JsString → ℕ → Action P (Unit {0})
  unfolding ready guarded js
  set_flag key ttl_ms w = elim (ready w) [
    | false ↦ (ok tt, w)
    | true ↦ guarded (P.redis.set_px key (js "1") ttl_ms) (λ _. pure tt) (pure tt) w
  ]

  -- `null` stands for "unknown".
  unfoldable pub has_flag : JsString → Action P (Option Bool)
  unfolding ready guarded
  has_flag key w = elim (ready w) [
    | false ↦ (ok none, w)
    | true ↦ guarded (P.redis.exists key) (λ n. pure (some (n == 1))) (pure none) w
  ]

  unfoldable pub get_stats : World P → Connection × CacheState
  unfolding ready
  get_stats w = (
    if c.redis_url
        then (if P.redis.is_ready w.redis then connected else disconnected)
        else disabled,
    w.cache,
  )
