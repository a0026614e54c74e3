-- ===== src/Runtime/Redis.antt =====
-- What the cache relies on of Redis, as its documentation states it: a GET answers the live value,
-- a key that has been deleted is not live, and no command makes a key live but one that names it.
-- A key may expire at any time, and a command that rejects may have been carried out.
pub mod InMemory
use booking_hotel.Prelude.{◌≡◌, ◌⊎◌, ℕ, Option, none, some, List, JsString}
use booking_hotel.Runtime.Errors.{ok}
use booking_hotel.Runtime.Platform.{Redis, In}

module _ (R : Redis) where
  -- What is live afterwards was live before.
  abbrev pub NothingNew : R.Client → R.Client → Type 0
  NothingNew cl cl' = (j v : JsString) → R.live cl' j ≡ some v → R.live cl j ≡ some v

  pub record RedisLaws : Type 0 where
    pub get_live :
        (k : JsString) (cl : R.Client) (o : Option JsString)
        → (R.get k cl).0 ≡ ok o
        → o ≡ R.live cl k
    pub get_keeps : (k : JsString) (cl : R.Client) → NothingNew cl (R.get k cl).1
    pub set_ex_keeps :
        (k v : JsString) (ttl : ℕ) (cl : R.Client) (j u : JsString)
        → R.live (R.set_ex k v ttl cl).1 j ≡ some u
        → ((j ≡ k) × (u ≡ v)) ⊎ (R.live cl j ≡ some u)
    pub del_keeps : (ks : List JsString) (cl : R.Client) → NothingNew cl (R.del ks cl).1
    pub del_gone :
        (ks : List JsString) (cl : R.Client) (n : ℕ) (k : JsString)
        → (R.del ks cl).0 ≡ ok n
        → In k ks
        → R.live (R.del ks cl).1 k ≡ none
    pub incr_keeps :
        (k : JsString) (cl : R.Client) (j u : JsString)
        → R.live (R.incr k cl).1 j ≡ some u
        → (j ≡ k) ⊎ (R.live cl j ≡ some u)
