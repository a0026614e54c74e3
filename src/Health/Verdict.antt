-- ===== src/Health/Verdict.antt =====
-- What the verdict of the readiness probe means.
use booking_hotel.Prelude.{◌≡◌, ◌⊎◌, true}
use booking_hotel.Runtime.Platform.{Platform}
use booking_hotel.Runtime.World.{World, Config}

module _ (P : Platform) (c : Config) (w : World P) where
  -- Some node of the global database can be read.
  abbrev pub Readable : Type 0
  Readable =
      (w.router.primary_health.healthy ≡ true)
      ⊎ ((c.replica_enabled ≡ true) × (w.router.replica_health.healthy ≡ true))
