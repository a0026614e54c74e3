-- ===== src/Bookings/Service/Writes.antt =====
-- What surrounds a write on the shard of a booking: the search version that changes after it.
use booking_hotel.Prelude.{◌∙◌, ◌≡◌, JsString, some, arith, inl, inr, sym, get_elem?, true}
use booking_hotel.Cache.Keys.{search_version}
use booking_hotel.Cache.Service.Frame.{bump_version-Quiet}
use booking_hotel.Runtime.Errors.{Result-cases, ok}
use booking_hotel.Runtime.Platform.{Platform, Query}
use booking_hotel.Runtime.World.{World, Config, Action, pure, ◌>>=◌}
use booking_hotel.Sharding.Router.{for_key, shard_of, write_shard, annotate_shard}
use booking_hotel.Sharding.Router.Isolation.{Wrote, write_shard-Wrote}
use booking_hotel.Bookings.Service.{invalidate_search, write_booking}

module _ (P : Platform) (c : Config) where
  -- The search version changes on the way out; no shard does.
  pub invalidated :
      (w : World P)
      → ((invalidate_search P c w).0 ≡ ok tt)
        × ((invalidate_search P c w).1.shard_dbs ≡ w.shard_dbs)
  unfolding invalidate_search
  invalidated w =
      let q = bump_version-Quiet P c w search_version in
      let returned = q.returns in let only = q.only in ground (arith, only.shard_dbs)

module _ (P : Platform) (c : Config) {A : Type 0} where
  -- After a success the search version changes, and the result stands.
  pub then_invalidate :
      (m : Action P A) (w : World P)
      → let out = (m >>= λ a. (invalidate_search P c >>= λ _. pure a)) w in
        (out.0 ≡ (m w).0) × (out.1.shard_dbs ≡ (m w).1.shard_dbs)
  then_invalidate m w =
      let (quiet, same) = invalidated P c (m w).1 in
      elim (Result-cases (m w).0) [
        | inl (b, r) ↦ ground (arith, r, quiet, same)
        | inr (x, r) ↦ ground (arith, r)
      ]

  -- A write on the shard of `id` whose client is up.
  pub write_booking-Wrote :
      (id : JsString) (mutation : Query P.prisma.Db A) (w : World P) (db : P.prisma.Db)
      → c.sharded ≡ true
      → get_elem? w.shard_dbs (shard_of P c id) ≡ some db
      → Wrote (shard_of P c id) mutation w db (write_booking P c id mutation w)
  unfolding write_booking for_key annotate_shard
  write_booking-Wrote id mutation w db on at =
      let w1 = (for_key P c id w).1 in
      let run = write_shard P c (shard_of P c id) mutation in
      let wrote = write_shard-Wrote P c (shard_of P c id) mutation w1 db on at in
      let (result, same) = then_invalidate run w1 in
      record {
        here = rw same wrote.here;
        others = λ j ne. rw same (wrote.others j ne);
        value = λ a e. wrote.value a (sym result ∙ e);
        error = λ x e. wrote.error x (sym result ∙ e);
      }
