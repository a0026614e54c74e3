-- ===== src/Hotels/Coherence/Invalidation.antt =====
-- The invalidation behind a write of a hotel (src/cache/cache.service.ts), and the rows that the
-- write spares.
use mathlib.Core.Path.{subst}
use booking_hotel.Prelude.{
  not, ◌≢◌, keep, ◌⊎◌, List, ℕ, Bool, ◌≡◌, ◌∙◌, true, false, some, [], ◌∷◌, JsString, ap, sym, inl,
  inr, arith,
}
use booking_hotel.Schema.{Hotel}
use booking_hotel.Runtime.Errors.{ok}
use booking_hotel.Runtime.Platform.{Platform, In, change}
use booking_hotel.Runtime.Redis.{RedisLaws}
use booking_hotel.Runtime.World.{pure, ◌>>◌, on_redis, World, Config, Action}
use booking_hotel.Cache.Keys.{hotel_key, search_version}
use booking_hotel.Cache.Service.{
  count_invalidations, log_redis_error, guarded, invalidate, bump_version, ready,
}
use booking_hotel.Hotels.Coherence.{hotel_key-other}
use booking_hotel.Prelude.{Bool-cases}

pub keep-In :
    (p : Hotel → Bool) (rows : List Hotel) (h : Hotel)
    → p h ≡ false
    → In h rows
    → In h (keep (λ x. not (p x)) rows)
keep-In p [] h e m = m
keep-In p (x ∷ rows) h e m =
    let rest = keep-In p rows h e in
    elim (Bool-cases (p x)) [
      | inl hit ↦ elim m [
        | inl same ↦ absurd (ground (arith, ap p same, e, hit))
        | inr later ↦ rw hit (rest later)
      ]
      | inr unnamed ↦ elim m [
        | inl same ↦ rw unnamed (inl same)
        | inr later ↦ rw unnamed (inr (rest later))
      ]
    ]

pub change-In :
    (p : Hotel → Bool) (f : Hotel → Hotel) (rows : List Hotel) (h : Hotel)
    → p h ≡ false
    → In h rows
    → In h (change p f rows)
change-In p f [] h e m = m
change-In p f (x ∷ rows) h e (inl same) =
    inl (let unnamed : p x ≡ false = ap p (sym same) ∙ e in rw unnamed same)
change-In p f (x ∷ rows) h e (inr m) = inr (change-In p f rows h e m)

module _ (P : Platform) (c : Config) (rl : RedisLaws P.redis) (id : JsString) (n : ℕ) where
  -- What is live once the card has been deleted and the version of the search counted up.
  module _ (cl cl' : P.redis.Client)
      (answered : (P.redis.del (hotel_key id ∷ []) cl).0 ≡ ok n) where
    abbrev cl1 : P.redis.Client
    cl1 = (P.redis.del (hotel_key id ∷ []) cl).1

    deleted :
        (j text : JsString)
        → P.redis.live cl1 (hotel_key j) ≡ some text
        → (j ≢ id) × (P.redis.live cl (hotel_key j) ≡ some text)
    deleted j text e = (
      λ same.
          let gone =
            rl.del_gone (hotel_key id ∷ []) cl n (hotel_key j) answered (inl (ap hotel_key same)) in
          absurd (ground (arith, gone, e)),
      rl.del_keeps (hotel_key id ∷ []) cl (hotel_key j) text e,
    )

    pub invalidated :
        (cl' ≡ (P.redis.incr search_version cl1).1) ⊎ (cl' ≡ cl1)
        → (j text : JsString) → P.redis.live cl' (hotel_key j) ≡ some text
        → (j ≢ id) × (P.redis.live cl (hotel_key j) ≡ some text)
    invalidated (inr end) j text e =
        deleted j text
          (subst (λ (x : P.redis.Client). P.redis.live x (hotel_key j) ≡ some text) end e)
    invalidated (inl end) j text e =
        elim (rl.incr_keeps search_version cl1 (hotel_key j) text
          (subst (λ (x : P.redis.Client). P.redis.live x (hotel_key j) ≡ some text) end e)) [
            | inl same ↦ absurd (hotel_key-other j same)
            | inr before ↦ deleted j text before
          ]

  abbrev pub announce : Hotel → Action P Hotel
  announce hotel =
      invalidate P c (hotel_key id ∷ []) >> (bump_version P c search_version >> pure hotel)

  pub announce-redis :
      (a : Hotel) (w : World P)
      → ready P c w ≡ true
      → (P.redis.del (hotel_key id ∷ []) w.redis).0 ≡ ok n
      → let out = announce a w in
        (out.1.shard_dbs ≡ w.shard_dbs)
        × ((out.1.redis
              ≡ (P.redis.incr search_version (P.redis.del (hotel_key id ∷ []) w.redis).1).1)
            ⊎ (out.1.redis ≡ (P.redis.del (hotel_key id ∷ []) w.redis).1))
  unfolding invalidate bump_version guarded count_invalidations on_redis log_redis_error ready
  announce-redis a w up answered = (
    ground (arith, up, answered),
    elim (Bool-cases (P.redis.is_ready (P.redis.del (hotel_key id ∷ []) w.redis).1)) [
      | inl again ↦ inl (ground (arith, up, answered, again))
      | inr down ↦ inr (ground (arith, up, answered, down))
    ],
  )
