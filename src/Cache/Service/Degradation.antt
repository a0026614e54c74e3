-- ===== src/Cache/Service/Degradation.antt =====
-- `getOrSet` of CacheService where Redis answers, misses or fails.
use mathlib.Core.Path.{subst}
use booking_hotel.Prelude.{
  Option, ◌⊎◌, ◌≡◌, JsString, Bool-cases, some, none, arith, inl, inr, sym, false,
}
use booking_hotel.Runtime.Errors.{Error, Result, Result-cases, ok, err}
use booking_hotel.Runtime.Platform.{Platform}
use booking_hotel.Runtime.World.{Action, World, Config, on_redis, random}
use booking_hotel.Cache.Service.{
  CacheResult, Ttl, get_or_set, fill, bypass_load, guarded, ready, log_redis_error, hit, miss,
  bypass,
}

module _ (P : Platform) (c : Config) {T : Type 0} (stringify : T → JsString)
    (parse : JsString → Result T) (key : JsString) (ttl : Ttl)
    (loader bypass_loader : Action P T) where
  abbrev answer : World P → Result (Option JsString)
  answer w = (P.redis.get key w.redis).0

  -- Redis is not configured, not connected, or has rejected the GET.
  abbrev pub Unavailable : World P → Type 0
  Unavailable w = (ready P c w ≡ false) ⊎ ((e : Error) × (answer w ≡ err e))

  -- Where the answer of `getOrSet` in `w` comes from.
  pub data Served (w : World P) (out : Result (CacheResult T)) : Type 0 where
    from_cache :
        (text : JsString) (value : T)
        → answer w ≡ ok (some text)
        → parse text ≡ ok value
        → out ≡ ok (record { value = value; cache = hit; key = key })
        → Served w out
    malformed :
        (text : JsString) (e : Error)
        → answer w ≡ ok (some text)
        → parse text ≡ err e
        → out ≡ err e
        → Served w out
    from_loader :
        (w1 : World P) (value : T)
        → answer w ≡ ok none
        → (loader w1).0 ≡ ok value
        → out ≡ ok (record { value = value; cache = miss; key = key })
        → Served w out
    from_bypass :
        (w1 : World P) (value : T)
        → Unavailable w
        → (bypass_loader w1).0 ≡ ok value
        → out ≡ ok (record { value = value; cache = bypass; key = key })
        → Served w out
    loader_failed :
        (w1 : World P) (e : Error)
        → answer w ≡ ok none
        → (loader w1).0 ≡ err e
        → out ≡ err e
        → Served w out
    bypass_failed :
        (w1 : World P) (e : Error)
        → Unavailable w
        → (bypass_loader w1).0 ≡ err e
        → out ≡ err e
        → Served w out

  bypass_load-Served :
      (w w1 : World P) → Unavailable w → Served w (bypass_load P c key bypass_loader w1).0
  unfolding bypass_load
  bypass_load-Served w w1 un = elim (Result-cases (bypass_loader w1).0) [
    | inl (v, r) ↦ from_bypass w1 v un r (ground (arith, r))
    | inr (e, r) ↦ bypass_failed w1 e un r (ground (arith, r))
  ]

  fill-Served :
      (w w1 : World P) → answer w ≡ ok none → Served w (fill P c stringify key ttl loader w1).0
  unfolding fill guarded random
  fill-Served w w1 missed = elim (Result-cases (loader w1).0) [
    | inl (v, r) ↦ from_loader w1 v missed r (ground (arith, r))
    | inr (e, r) ↦ loader_failed w1 e missed r (ground (arith, r))
  ]

  -- What `getOrSet` returns is what the cached text reads as, on a miss the loader's value, and
  -- where Redis is unavailable the bypass loader's value, and it says which; it rejects only with
  -- the error of the loader that it ran, or with that of a cached text which cannot be read. No
  -- failure of Redis reaches the caller.
  pub get_or_set-Served :
      (w : World P) → Served w (get_or_set P c stringify parse key ttl loader bypass_loader w).0
  unfolding get_or_set guarded on_redis
  get_or_set-Served w =
      let call = get_or_set P c stringify parse key ttl loader bypass_loader w in
      let w1 : World P = record w { redis = (P.redis.get key w.redis).1 } in
      elim (Bool-cases (ready P c w)) [
        | inl up ↦ elim (Result-cases (answer w)) [
          | inl (none, r) ↦
              let eq : call ≡ fill P c stringify key ttl loader w1 = ground (arith, up, r) in
              subst (λ (o : Result (CacheResult T) × World P). Served w o.0) (sym eq)
                (fill-Served w w1 r)
          | inl (some text, r) ↦ elim (Result-cases (parse text)) [
            | inl (v, p) ↦ from_cache text v r p (ground (arith, up, r, p))
            | inr (e, p) ↦ malformed text e r p (ground (arith, up, r, p))
          ]
          | inr (e, r) ↦
              let w2 = log_redis_error P c w1 in
              let eq : call ≡ bypass_load P c key bypass_loader w2 = ground (arith, up, r) in
              subst (λ (o : Result (CacheResult T) × World P). Served w o.0) (sym eq)
                (bypass_load-Served w w2 (inr (e, r)))
        ]
        | inr down ↦
            let eq : call ≡ bypass_load P c key bypass_loader w = ground (arith, down) in
            subst (λ (o : Result (CacheResult T) × World P). Served w o.0) (sym eq)
              (bypass_load-Served w w (inl down))
      ]

  -- Where both loaders always give `v` and the cached text, if Redis returns one, reads as `v`,
  -- `getOrSet` returns `v`, whatever Redis does.
  pub get_or_set_transparent :
      (w : World P) (v : T)
      → ((w1 : World P) → (loader w1).0 ≡ ok v)
      → ((w1 : World P) → (bypass_loader w1).0 ≡ ok v)
      → ((text : JsString) → answer w ≡ ok (some text) → parse text ≡ ok v)
      → (res : CacheResult T) × ((get_or_set P c stringify parse key ttl loader bypass_loader w).0
          ≡ ok res)
        × (res.value ≡ v)
  get_or_set_transparent w v loads bypasses coherent = elim (get_or_set-Served w) [
    | from_cache text u at p e ↦
        (record { value = u; cache = hit; key = key }, e, ground (arith, coherent text at, p))
    | malformed text x at p e ↦ absurd (ground (arith, coherent text at, p))
    | from_loader w1 u at l e ↦
        (record { value = u; cache = miss; key = key }, e, ground (arith, loads w1, l))
    | from_bypass w1 u un l e ↦
        (record { value = u; cache = bypass; key = key }, e, ground (arith, bypasses w1, l))
    | loader_failed w1 x at l e ↦ absurd (ground (arith, loads w1, l))
    | bypass_failed w1 x un l e ↦ absurd (ground (arith, bypasses w1, l))
  ]
