-- ===== src/Hotels/Coherence.antt =====
-- What it means that a cached card is that of a row, over the shards and Redis together, for
-- HotelsService (src/hotels/hotels.service.ts).
use booking_hotel.Sharding.Router.Isolation.{read_shard-Wrote, run_physical_missing}
pub mod Reads
pub mod Invalidation
pub mod Writes
mod Tests
use mathlib.Core.Path.{subst}
use booking_hotel.Prelude.{
  Option, Option-cases, ℕ, drop, get_elem?, js, Bool, ◌≡◌, ◌∙◌, true, false, none, some, [], ◌∷◌,
  JsString, ap, refl, sym, inl, inr, arith,
}
use booking_hotel.Schema.{Hotel, Tables}
use booking_hotel.Runtime.Errors.{Result, Error, Result-cases, ok, err}
use booking_hotel.Runtime.Platform.{Platform, PrismaLaws, Query, In, change}
use booking_hotel.Runtime.Redis.{RedisLaws, NothingNew}
use booking_hotel.Runtime.World.{on_redis, random, World, Config, Action}
use booking_hotel.Cache.Keys.{hotel_key, hotel_ttl, search_version}
use booking_hotel.Cache.Service.{
  miss, jittered, log_redis_error, count_miss, bypass, count_bypass, guarded, CacheResult,
  get_or_set, fill, bypass_load, invalidate, bump_version, ready,
}
use booking_hotel.Database.Router.{Consistency, strong_read, eventual_read, primary_preferred_read}
use booking_hotel.Sharding.Router.{
  reads, shard_of, for_key, read_shard, write_shard, annotate_shard,
}
use booking_hotel.Hotels.{
  hotel_not_found, UpdateHotel, find_one, find_one_cached, write_hotel, update, remove, hotel_with,
  apply_hotel,
}
use booking_hotel.Hotels.Rows.{
  Spares, none_picked, Spares-same, Spares-then, read_shard-Spares, write_shard-Spares,
  read_shard-redis, write_shard-redis,
}

-- A card's key tells the identifier, and is not the key of the search version.
pub hotel_key-injective : (i j : JsString) → hotel_key i ≡ hotel_key j → i ≡ j
unfolding hotel_key js
hotel_key-injective i j e = ap (λ s. drop 14 s) e

abbrev eighth : JsString → Option ℕ
eighth s = get_elem? s 8

pub hotel_key-other : (i : JsString) → hotel_key i ≡ search_version → ⊥
unfolding hotel_key search_version js
hotel_key-other i e = absurd (ground (arith, ap eighth e))

module _ (P : Platform) (c : Config) where
  -- The row of an identifier on its shard.
  abbrev pub Current : World P → JsString → Hotel → Type 0
  Current w id h =
      (db : P.prisma.Db) × (get_elem? w.shard_dbs (shard_of P c id) ≡ some db)
      × In h (P.prisma.tables db).hotels
      × (hotel_with id h ≡ true)

  pub Current-Spares :
      (p : Hotel → Bool) (w w' : World P) (id : JsString) (h : Hotel)
      → Spares p w w'
      → p h ≡ false
      → Current w id h
      → Current w' id h
  Current-Spares p w w' id h kept e (db, at, member, named) =
      let (db', at', rows) = kept (shard_of P c id) db at in (db', at', rows h e member, named)

  -- What a load of a hotel's card promises: it changes no row and nothing in Redis, and returns
  -- the row of its identifier.
  pub record Loads (id : JsString) (w : World P) (out : Result Hotel × World P) : Type 0 where
    pub spares : Spares none_picked w out.1
    pub redis : out.1.redis ≡ w.redis
    pub value : (h : Hotel) → out.0 ≡ ok h → Current out.1 id h

module _ (P : Platform) (c : Config) (parse : JsString → Result Hotel) where
  -- Every card that the cache holds reads as a row.
  abbrev pub Coherent : World P → Type 0
  Coherent w =
      (id text : JsString)
      → P.redis.live w.redis (hotel_key id) ≡ some text
      → (h : Hotel) × (parse text ≡ ok h) × Current P c w id h

  -- Where rows are spared and nothing new is live.
  pub Coherent-Spares :
      (w w' : World P)
      → Spares none_picked w w'
      → NothingNew P.redis w.redis w'.redis
      → Coherent w
      → Coherent w'
  Coherent-Spares w w' kept live h id text e =
      let (card, reads_as, row) = h id text (live (hotel_key id) text e) in
      (card, reads_as, Current-Spares P c none_picked w w' id card kept refl row)

  pub Coherent-same :
      (w w' : World P) → w'.shard_dbs ≡ w.shard_dbs → w'.redis ≡ w.redis → Coherent w → Coherent w'
  Coherent-same w w' dbs redis h =
      Coherent-Spares w w' (Spares-same none_picked w w' dbs)
        (λ j v e. subst (λ (x : P.redis.Client). P.redis.live x j ≡ some v) redis e) h

  pub Coherent-Loads :
      (id : JsString) (w : World P) (out : Result Hotel × World P)
      → Loads P c id w out
      → Coherent w
      → Coherent out.1
  Coherent-Loads id w out loads h =
      Coherent-Spares w out.1 loads.spares
        (λ j v e. subst (λ (x : P.redis.Client). P.redis.live x j ≡ some v) loads.redis e) h

module _ (P : Platform) (c : Config) (laws : PrismaLaws P.prisma) (on : c.sharded ≡ true) where
  found-Current :
      (id : JsString) (consistency : Consistency) (w : World P) (h : Hotel)
      → let out =
          read_shard P c
            (shard_of P c id)
            (P.prisma.hotel.find_unique (hotel_with id))
            consistency
            w in
        out.0 ≡ ok (some h) → Current P c out.1 id h
  found-Current id consistency w h e =
      let k = shard_of P c id in
      let query = P.prisma.hotel.find_unique (hotel_with id) in
      elim (Option-cases (get_elem? w.shard_dbs k)) [
        | inl gone ↦
            let missing = run_physical_missing P c k reads query w gone in
            absurd (unfold read_shard in ground (arith, missing, e, on))
        | inr (db, at) ↦
            let wrote = read_shard-Wrote P c k query consistency w db on at in
            let (member, named) =
              laws.hotel.find_unique_ok (hotel_with id) db (some h) (wrote.value (some h) e) in
            (
              (query db).1,
              wrote.here,
              subst (λ (t : Tables). In h t.hotels)
                  (sym (laws.hotel.find_unique_same (hotel_with id) db)) member,
              named,
            )
      ]

  pub find_one-Loads :
      (id : JsString) (consistency : Consistency) (w : World P)
      → Loads P c id w (find_one P c id consistency w)
  unfolding find_one for_key annotate_shard
  find_one-Loads id consistency w =
      let k = shard_of P c id in
      let query = P.prisma.hotel.find_unique (hotel_with id) in
      let w1 = (for_key P c id w).1 in
      let out = read_shard P c k query consistency w1 in
      let kept =
        read_shard-Spares P c on k query consistency w1
          (laws.hotel.find_unique_same (hotel_with id)) in
      let same = read_shard-redis P c on k query consistency w1 in
      let row = found-Current id consistency w1 in
      let load = find_one P c id consistency w in
      let settle : (r : Result Hotel)
          → ((h : Hotel) → r ≡ ok h → out.0 ≡ ok (some h))
          → load ≡ (r, out.1)
          → Loads P c id w load =
        λ r found eq.
          subst (Loads P c id w) (sym eq)
            (record { spares = kept; redis = same; value = λ h q. row h (found h q) }) in
      elim (Result-cases out.0) [
        | inl (none, e) ↦
            settle (err (hotel_not_found id)) (λ h q. absurd (ground arith)) (ground arith)
        | inl (some h, e) ↦ settle (ok h) (λ h' q. ground arith) (ground arith)
        | inr (x, e) ↦ settle (err x) (λ h q. absurd (ground arith)) (ground arith)
      ]
