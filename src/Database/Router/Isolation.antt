-- ===== src/Database/Router/Isolation.antt =====
-- Which node's database an operation of DbRouter may change.
use booking_hotel.Cache.Service.{set_flag}
use booking_hotel.Runtime.Errors.{ok}
use booking_hotel.Database.State.{reject_write, count_write, track, mark_down}
use booking_hotel.Database.Router.{
  sticky_key, read_degraded, stick, remember_write, write_with, read_primary,
}
use booking_hotel.Prelude.{true, ◌↔◌, if◌then◌else◌, refl, arith, inr, inl, Option-cases, ◌≡◌}
use booking_hotel.Runtime.World.{write, primary, strong, World, on_primary, Config}
use booking_hotel.Runtime.Platform.{Query, Platform}
use booking_hotel.Cache.Service.Frame.{Quiet, set_flag-Quiet}

module _ (P : Platform) (c : Config) where
  -- Marking a session succeeds, and changes no node.
  pub remember_write-same :
      (w : World P)
      → ((remember_write P c w).0 ≡ ok tt)
        × ((remember_write P c w).1.primary_db ≡ w.primary_db)
        × ((remember_write P c w).1.replica_db ≡ w.replica_db)
        × ((remember_write P c w).1.shard_dbs ≡ w.shard_dbs)
  unfolding remember_write stick
  remember_write-same w = elim (Option-cases w.context) [
    | inl e ↦ rw (e, remember_write) (refl, refl, refl, refl)
    | inr (ctx, e) ↦
        let q : Quiet (set_flag P c (sticky_key ctx.session_id) c.sticky_ttl_ms)
            (stick P c ctx.session_id w) =
          set_flag-Quiet P c (stick P c ctx.session_id w) (sticky_key ctx.session_id)
            c.sticky_ttl_ms in
        let returned = q.returns in
        let only = q.only in ground (arith, only.primary_db, only.replica_db, only.shard_dbs)
  ]

module _ (P : Platform) (c : Config) {A : Type 0} where
  pub read_primary-replica_db :
      (query : Query P.prisma.Db A) (w : World P)
      → (read_primary P c query strong w).1.replica_db ≡ w.replica_db
  unfolding read_primary read_degraded on_primary mark_down track
  read_primary-replica_db query w = ground arith

  -- What a write does to the two databases: the Primary's is what the mutation leaves, unless the
  -- Primary was known to be down, and the Replica's is untouched; it succeeds exactly when the
  -- Primary is taken for healthy and the mutation returns.
  pub write_with-nodes :
      (mutation : Query P.prisma.Db A) (w : World P)
      → let (r, w') = write_with P c mutation w in
        (w'.replica_db ≡ w.replica_db)
        × (w'.shard_dbs ≡ w.shard_dbs)
        × (w'.primary_db
            ≡ (if w.router.primary_health.healthy then (mutation w.primary_db).1 else w.primary_db))
        × ((a : A)
            → (r ≡ ok a)
              ↔ ((w.router.primary_health.healthy ≡ true) × ((mutation w.primary_db).0 ≡ ok a)))
  unfolding write_with on_primary mark_down track count_write reject_write
  write_with-nodes mutation w =
      ground (
        arith,
        remember_write-same P c (track primary write (count_write (on_primary mutation w).1)),
      )
