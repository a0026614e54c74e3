-- ===== src/Cache/Service/Frame.antt =====
-- The Redis calls of CacheService touch the Redis client and the cache's own counters, and they
-- never reject.
use booking_hotel.Cache.Service.{
  none, get_version, err, ◌∷◌, ℕ, JsString, List, ok, bump_version, has_flag, invalidate, set_flag,
}
use booking_hotel.Prelude.{[], arith, ◌≡◌}
use booking_hotel.Runtime.World.{Action, World, Config}
use booking_hotel.Runtime.Platform.{Platform}

pub record OnlyCache {P : Platform} (w w' : World P) : Type 0 where
  pub primary_db : w'.primary_db ≡ w.primary_db
  pub replica_db : w'.replica_db ≡ w.replica_db
  pub shard_dbs : w'.shard_dbs ≡ w.shard_dbs
  pub router : w'.router ≡ w.router
  pub shards : w'.shards ≡ w.shards
  pub context : w'.context ≡ w.context
  pub now : w'.now ≡ w.now

-- The call ended with a value, and no node or router changed.
pub record Quiet {P : Platform} {A : Type 0} (m : Action P A) (w : World P) : Type 0 where
  pub value : A
  pub returns : (m w).0 ≡ ok value
  pub only : OnlyCache w (m w).1

module _ (P : Platform) (c : Config) (w : World P) where
  pub set_flag-Quiet : (key : JsString) (ttl : ℕ) → Quiet (set_flag P c key ttl) w
  unfolding set_flag
  set_flag-Quiet key ttl = record { value = tt; returns = ground arith; only = ground arith }

  pub bump_version-Quiet : (key : JsString) → Quiet (bump_version P c key) w
  unfolding bump_version
  bump_version-Quiet key = record { value = tt; returns = ground arith; only = ground arith }

  pub invalidate-Quiet : (keys : List JsString) → Quiet (invalidate P c keys) w
  unfolding invalidate
  invalidate-Quiet [] = record { value = tt; returns = ground arith; only = ground arith }
  invalidate-Quiet (k ∷ keys) = record { value = tt; returns = ground arith; only = ground arith }

  pub has_flag-Quiet : (key : JsString) → Quiet (has_flag P c key) w
  unfolding has_flag
  has_flag-Quiet key = record {
    value = elim ((has_flag P c key w).0) [ ok b ↦ b | err e ↦ none ];
    returns = ground arith;
    only = ground arith;
  }

  pub get_version-Quiet : (key : JsString) → Quiet (get_version P c key) w
  unfolding get_version
  get_version-Quiet key = record {
    value = elim ((get_version P c key w).0) [ ok n ↦ n | err e ↦ 0 ];
    returns = ground arith;
    only = ground arith;
  }
