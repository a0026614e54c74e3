-- ===== src/Hotels/Coherence/Reads.antt =====
-- Cards and rows around a read through the cache, `findOneCached` of src/hotels/hotels.service.ts.
use mathlib.Core.Path.{subst}
use booking_hotel.Prelude.{ℕ, ◌≡◌, ◌∙◌, true, none, some, JsString, ap, refl, sym, inl, inr, arith}
use booking_hotel.Schema.{Hotel}
use booking_hotel.Runtime.Errors.{Result, Result-cases, ok, err}
use booking_hotel.Runtime.Platform.{Platform, PrismaLaws}
use booking_hotel.Runtime.Redis.{RedisLaws}
use booking_hotel.Runtime.World.{on_redis, random, World, Config, Action}
use booking_hotel.Cache.Keys.{hotel_key, hotel_ttl}
use booking_hotel.Cache.Service.{
  miss, jittered, log_redis_error, count_miss, bypass, count_bypass, guarded, CacheResult,
  get_or_set, fill, bypass_load, ready,
}
use booking_hotel.Database.Router.{eventual_read, primary_preferred_read}
use booking_hotel.Hotels.{find_one, find_one_cached}
use booking_hotel.Hotels.Rows.{none_picked, Spares-same}
use booking_hotel.Hotels.Coherence.{
  Coherent-Loads, Coherent-same, Current, Coherent, Loads, Current-Spares, Coherent-Spares,
  find_one-Loads, hotel_key-injective,
}
use booking_hotel.Prelude.{Bool-cases}
use booking_hotel.Cache.Service.{
  hit, miss, bypass, count_hit, count_miss, count_bypass, guarded, jittered, log_redis_error,
}
use booking_hotel.Runtime.World.{random, on_redis}

module _ (P : Platform) (c : Config) (laws : PrismaLaws P.prisma) (on : c.sharded ≡ true)
    (stringify : Hotel → JsString) (parse : JsString → Result Hotel) where
  -- What a cached read leaves and returns.
  abbrev pub Fresh : JsString → Result (CacheResult Hotel) × World P → Type 0
  Fresh id out =
      Coherent P c parse out.1
      × ((r : CacheResult Hotel) → out.0 ≡ ok r → Current P c out.1 id r.value)

  bypass_load-Fresh :
      (id : JsString) (loader : Action P Hotel) (w : World P)
      → Coherent P c parse w
      → Loads P c id w (loader w)
      → Fresh id (bypass_load P c (hotel_key id) loader w)
  unfolding bypass_load count_bypass
  bypass_load-Fresh id loader w h loads =
      let out = loader w in
      let base = Coherent-Loads P c parse id w out loads h in
      elim (Result-cases out.0) [
        | inl (a, e) ↦
            let eq : bypass_load P c (hotel_key id) loader w ≡ (
              ok (record { value = a; cache = bypass; key = hotel_key id }),
              count_bypass P c out.1,
            ) =
              ground (arith, e) in
            subst (Fresh id) (sym eq)
              (base, λ r q. subst (Current P c out.1 id) (ground (arith, q)) (loads.value a e))
        | inr (x, e) ↦
            let eq : bypass_load P c (hotel_key id) loader w ≡ (err x, out.1) = ground (arith, e) in
            subst (Fresh id) (sym eq) (base, λ r q. absurd (ground (arith, q)))
      ]

  -- What a SET of a card of a row leaves.
  stored-Coherent :
      (id : JsString) (a : Hotel) (ttl : ℕ) (w w' : World P)
      → RedisLaws P.redis
      → ((h : Hotel) → parse (stringify h) ≡ ok h)
      → w'.shard_dbs ≡ w.shard_dbs
      → w'.redis ≡ (P.redis.set_ex (hotel_key id) (stringify a) ttl w.redis).1
      → Coherent P c parse w
      → Current P c w id a
      → Coherent P c parse w'
  stored-Coherent id a ttl w w' rl round same stored h row j text e =
      elim (rl.set_ex_keeps (hotel_key id) (stringify a) ttl w.redis (hotel_key j) text
        (subst (λ (x : P.redis.Client). P.redis.live x (hotel_key j) ≡ some text) stored e)) [
          | inl (named, written) ↦
              let there =
                Current-Spares P c none_picked w w' id a (Spares-same none_picked w w' same) refl
                  row in
              (
                a,
                ap parse written ∙ round a,
                subst (λ (x : JsString). Current P c w' x a) (sym (hotel_key-injective j id named))
                    there,
              )
          | inr before ↦
              let (card, reads_as, at) = h j text before in
              (
                card,
                reads_as,
                Current-Spares P c none_picked w w' j card (Spares-same none_picked w w' same) refl
                    at,
              )
        ]

  fill-Fresh :
      (id : JsString) (loader : Action P Hotel) (w : World P)
      → RedisLaws P.redis
      → ((h : Hotel) → parse (stringify h) ≡ ok h)
      → Coherent P c parse w
      → Loads P c id w (loader w)
      → Fresh id (fill P c stringify (hotel_key id) hotel_ttl loader w)
  unfolding fill guarded count_miss random on_redis log_redis_error
  fill-Fresh id loader w rl round h loads =
      let call = fill P c stringify (hotel_key id) hotel_ttl loader w in
      let out = loader w in
      let base = Coherent-Loads P c parse id w out loads h in
      elim (Result-cases out.0) [
        | inl (a, e) ↦
            let ttl = jittered P c hotel_ttl (P.js.random out.1.next_random) in
            let value : call.0 ≡ ok (record { value = a; cache = miss; key = hotel_key id }) =
              ground (arith, e) in
            let dbs : call.1.shard_dbs ≡ out.1.shard_dbs = ground (arith, e) in
            let stored : call.1.redis
                ≡ (P.redis.set_ex (hotel_key id) (stringify a) ttl out.1.redis).1 =
              ground (arith, e) in
            let row = loads.value a e in
            (
              stored-Coherent id a ttl out.1 call.1 rl round dbs stored base row,
              λ r q. subst (Current P c call.1 id) (ground (arith, value, q)) (
                  Current-Spares P c none_picked out.1 call.1 id a
                    (Spares-same none_picked out.1 call.1 dbs) refl row),
            )
        | inr (x, e) ↦
            let eq : call ≡ (err x, out.1) = ground (arith, e) in
            subst (Fresh id) (sym eq) (base, λ r q. absurd (ground (arith, q)))
      ]

  -- With sharding and a text that reads back as the hotel, while every cached card is that of a
  -- row, a read through the cache returns a row of the hotel that was asked for, as its shard has
  -- it, whether Redis answers or not, and every cached card is still that of a row.
  pub find_one_cached-Fresh :
      (id : JsString) (w : World P)
      → RedisLaws P.redis
      → ((h : Hotel) → parse (stringify h) ≡ ok h)
      → Coherent P c parse w
      → Fresh id (find_one_cached P c stringify parse id w)
  unfolding find_one_cached get_or_set guarded on_redis
  find_one_cached-Fresh id w rl round h =
      let call = find_one_cached P c stringify parse id w in
      let key = hotel_key id in
      let loader = find_one P c id primary_preferred_read in
      let bypass_loader = find_one P c id eventual_read in
      let w1 : World P = record w { redis = (P.redis.get key w.redis).1 } in
      let kept = Spares-same none_picked w w1 refl in
      let h1 = Coherent-Spares P c parse w w1 kept (rl.get_keeps key w.redis) h in
      elim (Bool-cases (ready P c w)) [
        | inl up ↦ elim (Result-cases (P.redis.get key w.redis).0) [
          | inl (none, r) ↦
              let eq : call ≡ fill P c stringify key hotel_ttl loader w1 = ground (arith, up, r) in
              subst (Fresh id) (sym eq) (
                fill-Fresh id loader w1 rl round h1
                  (find_one-Loads P c laws on id primary_preferred_read w1))
          | inl (some text, r) ↦
              let (card, reads_as, row) = h id text (sym (rl.get_live key w.redis (some text) r)) in
              let eq : call
                  ≡ (ok (record { value = card; cache = hit; key = key }), count_hit P c w1) =
                ground (arith, up, r, reads_as) in
              subst (Fresh id) (sym eq) (
                h1,
                λ x q.
                    subst (Current P c w1 id) (ground (arith, q))
                      (Current-Spares P c none_picked w w1 id card kept refl row),
              )
          | inr (e, r) ↦
              let w2 = log_redis_error P c w1 in
              let eq : call ≡ bypass_load P c key bypass_loader w2 = ground (arith, up, r) in
              let h2 : Coherent P c parse w2 =
                Coherent-same P c parse w1 w2 (unfold log_redis_error in ground arith)
                  (unfold log_redis_error in ground arith) h1 in
              subst (Fresh id) (sym eq) (
                bypass_load-Fresh id bypass_loader w2 h2
                  (find_one-Loads P c laws on id eventual_read w2))
        ]
        | inr down ↦
            let eq : call ≡ bypass_load P c key bypass_loader w = ground (arith, down) in
            subst (Fresh id) (sym eq) (
              bypass_load-Fresh id bypass_loader w h
                (find_one-Loads P c laws on id eventual_read w))
      ]
