-- ===== src/Cache/Service/Tests.antt =====
-- A cache that holds a text, and the same read without Redis.
use booking_hotel.Prelude.{◌≡◌, JsString, some, [], ◌∷◌, refl, arith}
use booking_hotel.Runtime.Errors.{Result, ok}
use booking_hotel.Runtime.World.{World, Action}
use booking_hotel.Runtime.Memory.{memory, memory_redis}
use booking_hotel.Runtime.Sample.{sample_config, sample_world}
use booking_hotel.Cache.Service.{CacheResult, Ttl, get_or_set}
use booking_hotel.Cache.Service.Degradation.{Served, get_or_set-Served, get_or_set_transparent}

abbrev key : JsString
key = 107 ∷ []

abbrev ttl : Ttl
ttl = record { base = 120; jitter = 30 }

-- The cached value of the key is 7.
abbrev warm_world : World memory
warm_world = record sample_world { redis = (key, 7 ∷ []) ∷ [] }

abbrev loader : Action memory JsString
loader w = (ok (7 ∷ []), w)

abbrev text_of : JsString → JsString
text_of s = s

abbrev read_text : JsString → Result JsString
read_text s = ok s

get_or_set-Served_example :
    Served memory sample_config text_of read_text key ttl loader loader warm_world
      (get_or_set memory sample_config text_of read_text key ttl loader loader warm_world).0
get_or_set-Served_example =
    get_or_set-Served memory sample_config text_of read_text key ttl loader loader warm_world

cached_text :
    (text : JsString)
    → (memory_redis.get key warm_world.redis).0 ≡ ok (some text)
    → read_text text ≡ ok (7 ∷ [])
cached_text text e = ground (arith, e)

get_or_set_transparent_example :
    (res : CacheResult JsString) × ((get_or_set memory sample_config text_of read_text key ttl
        loader loader warm_world).0
      ≡ ok res)
    × (res.value ≡ 7 ∷ [])
get_or_set_transparent_example =
    get_or_set_transparent memory sample_config text_of read_text key ttl loader loader warm_world
      (7 ∷ []) (λ w1. refl) (λ w1. refl) cached_text
