-- ===== src/Database/Router/Routing.antt =====
-- Where DbRouter sends a read: read-your-own-writes, fallback and degraded reads.
use booking_hotel.Cache.Service.Frame.{set_flag-Quiet}
use booking_hotel.Runtime.Errors.{ok}
use booking_hotel.Database.State.{note_route, reject_write, count_write, track, mark_down}
use booking_hotel.Prelude.{
  refl, ◌∙◌, ◌≤◌, ◌+◌, ◌<◌, ◌∷◌, true, [], str_eq_refl, arith, some, ◌≡◌, List, ℕ, JsString,
}
use booking_hotel.Database.Router.{
  sticky_key, eventual_read, read_eventual, is_sticky, read, read_primary, stick, remember_write,
  write_with, sticky_set, sticky_get,
}
use booking_hotel.Runtime.World.{
  write, primary, sticky, Route, RequestContext, World, on_primary, Config,
}
use booking_hotel.Runtime.Platform.{Query, Platform}

pub sticky_get-set :
    (k : JsString) (t : ℕ) (m : List (JsString × ℕ)) → sticky_get k (sticky_set k t m) ≡ some t
unfolding sticky_get sticky_set
sticky_get-set k t [] = ground (arith, str_eq_refl k)
sticky_get-set k t ((j, u) ∷ m) = ground (arith, sticky_get-set k t m)

module _ (P : Platform) (c : Config) (w : World P) (ctx : RequestContext) where
  remember_write-sticky :
      c.replica_enabled ≡ true
      → 0 < c.sticky_ttl_ms
      → w.context ≡ some ctx
      → let w' = (remember_write P c w).1 in
        (sticky_get ctx.session_id w'.router.local_sticky ≡ some (w.now + c.sticky_ttl_ms))
        × (w'.router.primary_health ≡ w.router.primary_health)
        × (w'.context ≡ some ctx)
        × (w'.primary_db ≡ w.primary_db)
        × (w'.replica_db ≡ w.replica_db)
  unfolding remember_write stick
  remember_write-sticky en pos at =
      let q =
        set_flag-Quiet P c (stick P c ctx.session_id w) (sticky_key ctx.session_id)
          c.sticky_ttl_ms in
      let only = q.only in
      ground (
        arith,
        only.router,
        only.context,
        only.primary_db,
        only.replica_db,
        sticky_get-set ctx.session_id (w.now + c.sticky_ttl_ms) w.router.local_sticky,
      )

  -- A session in the local table is sticky without a call to Redis.
  pub is_sticky_local :
      (t : ℕ)
      → 0 < c.sticky_ttl_ms
      → w.context ≡ some ctx
      → sticky_get ctx.session_id w.router.local_sticky ≡ some t
      → w.now < t
      → is_sticky P c w ≡ (ok true, w)
  unfolding is_sticky
  is_sticky_local t pos at found lt = ground arith

module _ (P : Platform) (c : Config) {A : Type 0} where
  pub read_primary_ok :
      (query : Query P.prisma.Db A) (route : Route) (w : World P) (b : A)
      → w.router.primary_health.healthy ≡ true
      → (query w.primary_db).0 ≡ ok b
      → ((read_primary P c query route w).0 ≡ ok b)
        × ((read_primary P c query route w).1.replica_db ≡ w.replica_db)
  unfolding read_primary on_primary track
  read_primary_ok query route w b up e = ground arith

  pub read_eventual_sticky :
      (query : Query P.prisma.Db A) (w : World P)
      → c.replica_enabled ≡ true
      → is_sticky P c w ≡ (ok true, w)
      → read P c query eventual_read w ≡ read_primary P c query sticky w
  unfolding read read_eventual
  read_eventual_sticky query w en st = ground arith

-- What a later read of the session finds after a write.
pub record IsStuck {P : Platform} (sid : JsString) (until : ℕ) (primary replica : P.prisma.Db)
    (w : World P) : Type 0 where
  pub context : RequestContext
  pub at : w.context ≡ some context
  pub session : context.session_id ≡ sid
  pub local : sticky_get sid w.router.local_sticky ≡ some until
  pub healthy : w.router.primary_health.healthy ≡ true
  pub primary_db : w.primary_db ≡ primary
  pub replica_db : w.replica_db ≡ replica

module _ (P : Platform) (c : Config) {A : Type 0} where
  pub write_with-IsStuck :
      (mutation : Query P.prisma.Db A) (w : World P) (ctx : RequestContext) (a : A)
      → c.replica_enabled ≡ true
      → 0 < c.sticky_ttl_ms
      → w.context ≡ some ctx
      → (write_with P c mutation w).0 ≡ ok a
      → IsStuck ctx.session_id
          (w.now + c.sticky_ttl_ms)
          (mutation w.primary_db).1
          w.replica_db
          (write_with P c mutation w).1
  unfolding write_with on_primary track count_write reject_write mark_down note_route
  write_with-IsStuck mutation w ctx a en pos at e =
      let w1 = track primary write (count_write (on_primary mutation w).1) in
      let facts =
        remember_write-sticky P c w1 (note_route primary write ctx) en pos (ground arith) in
      record {
        context = note_route primary write ctx;
        at = ground (arith, facts.2);
        session = refl;
        local = ground (arith, facts.0);
        healthy = ground (arith, facts.1);
        primary_db = ground (arith, facts.3);
        replica_db = ground (arith, facts.4);
      }

module _ (P : Platform) (c : Config) {A B : Type 0} where
  -- With a Replica, an eventual read in the state that a successful write of a session has left,
  -- but for the clock, which is still before the end of the sticky time, returns the answer that
  -- the Primary gives after the write, and leaves the Replica alone.
  pub read_after_write :
      (mutation : Query P.prisma.Db A) (query : Query P.prisma.Db B) (w : World P)
      (ctx : RequestContext) (t : ℕ) (a : A) (b : B)
      → c.replica_enabled ≡ true
      → w.context ≡ some ctx
      → (write_with P c mutation w).0 ≡ ok a
      → t < w.now + c.sticky_ttl_ms
      → (query (mutation w.primary_db).1).0 ≡ ok b
      → w.now ≤ t
      → let w' = record ((write_with P c mutation w).1) { now = t } in
        ((read P c query eventual_read w').0 ≡ ok b)
        × ((read P c query eventual_read w').1.replica_db ≡ w.replica_db)
  read_after_write mutation query w ctx t a b en at e lt answer le =
      let w' = record ((write_with P c mutation w).1) { now = t } in
      let s = write_with-IsStuck P c mutation w ctx a en (omega arith) at e in
      let stuck : is_sticky P c w' ≡ (ok true, w') =
        is_sticky_local P c w' s.context (w.now + c.sticky_ttl_ms) (omega arith) s.at
          (rw s.session s.local) lt in
      let (found, same) =
        read_primary_ok P c query sticky w' b s.healthy (rw s.primary_db answer) in
      rw (read_eventual_sticky P c query w' en stuck) (found, same ∙ s.replica_db)
