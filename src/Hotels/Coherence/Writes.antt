-- ===== src/Hotels/Coherence/Writes.antt =====
-- Cards and rows around the writes of a hotel, `update` and `remove` of
-- src/hotels/hotels.service.ts.
use mathlib.Core.Path.{subst}
use booking_hotel.Prelude.{
  str_eq→eq, ℕ, ◌≡◌, ◌∙◌, true, false, some, [], ◌∷◌, JsString, ap, sym, inl, inr, arith,
}
use booking_hotel.Schema.{Hotel, Tables}
use booking_hotel.Runtime.Errors.{Result, Error, Result-cases, ok, err}
use booking_hotel.Runtime.Platform.{Platform, PrismaLaws, Query, In}
use booking_hotel.Runtime.Redis.{RedisLaws}
use booking_hotel.Runtime.World.{◌>>◌, World, Config}
use booking_hotel.Cache.Keys.{hotel_key}
use booking_hotel.Cache.Service.{ready}
use booking_hotel.Database.Router.{strong_read}
use booking_hotel.Sharding.Router.{shard_of, for_key, write_shard, annotate_shard}
use booking_hotel.Hotels.{
  UpdateHotel, find_one, write_hotel, update, remove, hotel_with, apply_hotel,
}
use booking_hotel.Hotels.Rows.{Spares-same, Spares-then, write_shard-Spares, write_shard-redis}
use booking_hotel.Hotels.Coherence.{
  Coherent-Loads, Coherent, Current-Spares, Coherent-Spares, find_one-Loads,
}
use booking_hotel.Prelude.{Bool-cases}
use booking_hotel.Hotels.Coherence.Invalidation.{
  keep-In, change-In, invalidated, announce, announce-redis,
}

module _ (P : Platform) (c : Config) (rl : RedisLaws P.redis) (on : c.sharded ≡ true)
    (parse : JsString → Result Hotel) (id : JsString) (n : ℕ) where
  write_hotel-Coherent :
      (mutation : Query P.prisma.Db Hotel) (w : World P)
      → ((db : P.prisma.Db) (h : Hotel)
          → hotel_with id h ≡ false
          → In h (P.prisma.tables db).hotels
          → In h (P.prisma.tables (mutation db).1).hotels)
      → ((db : P.prisma.Db) (x : Error)
          → (mutation db).0 ≡ err x
          → P.prisma.tables (mutation db).1 ≡ P.prisma.tables db)
      → ready P c w ≡ true
      → (P.redis.del (hotel_key id ∷ []) w.redis).0 ≡ ok n
      → Coherent P c parse w
      → Coherent P c parse (write_hotel P c id mutation w).1
  unfolding write_hotel for_key annotate_shard
  write_hotel-Coherent mutation w spared rolled up answered h =
      let call = write_hotel P c id mutation w in
      let w1 = (for_key P c id w).1 in
      let out = write_shard P c (shard_of P c id) mutation w1 in
      let (spares, failed) =
        write_shard-Spares P c on (shard_of P c id) mutation (hotel_with id) w1 spared rolled in
      let same = write_shard-redis P c on (shard_of P c id) mutation w1 in
      elim (Result-cases out.0) [
        | inl (a, e) ↦
            let w2 = out.1 in
            let up2 : ready P c w2 ≡ true = unfold ready in rw same up in
            let answered2 : (P.redis.del (hotel_key id ∷ []) w2.redis).0 ≡ ok n =
              rw same answered in
            let (dbs, ends) = announce-redis P c rl id n a w2 up2 answered2 in
            let eq : call ≡ announce P c rl id n a w2 = ground (arith, e) in
            subst (λ (o : Result Hotel × World P). Coherent P c parse o.1) (sym eq)
              (λ j text q.
                let w3 = (announce P c rl id n a w2).1 in
                let (other, live) =
                  invalidated P c rl id n w2.redis w3.redis answered2 ends j text q in
                let (card, reads_as, (db, at, member, named)) = h j text (
                  subst (λ (x : P.redis.Client). P.redis.live x (hotel_key j) ≡ some text) same
                    live) in
                let missed : hotel_with id card ≡ false = elim (Bool-cases (hotel_with id card)) [
                  | inl hit ↦
                      absurd (other (sym (str_eq→eq card.id j named) ∙ str_eq→eq card.id id hit))
                  | inr unnamed ↦ unnamed
                ] in
                (
                  card,
                  reads_as,
                  Current-Spares P c (hotel_with id) w w3 j card
                      (Spares-then (hotel_with id) (hotel_with id) w w2 w3 (λ h e. e) spares
                        (Spares-same (hotel_with id) w2 w3 dbs))
                      missed (db, at, member, named),
                ))
        | inr (x, e) ↦
            let dbs : call.1 ≡ out.1 = ground (arith, e) in
            let same2 : call.1.redis ≡ w.redis = ap (λ (x : World P). x.redis) dbs ∙ same in
            let h1 =
              Coherent-Spares P c parse w out.1 (failed x e)
                (λ j v q. subst (λ (x : P.redis.Client). P.redis.live x j ≡ some v) same q) h in
            subst (Coherent P c parse) (sym dbs) h1
      ]

module _ (P : Platform) (c : Config) (laws : PrismaLaws P.prisma) (rl : RedisLaws P.redis)
    (on : c.sharded ≡ true) (parse : JsString → Result Hotel) (id : JsString) (n : ℕ) (w : World P)
    (up : ready P c w ≡ true) (answered : (P.redis.del (hotel_key id ∷ []) w.redis).0 ≡ ok n)
    (h : Coherent P c parse w) where
  -- The lookup, and then the write.
  checked-Coherent :
      (mutation : Query P.prisma.Db Hotel)
      → ((db : P.prisma.Db) (x : Hotel)
          → hotel_with id x ≡ false
          → In x (P.prisma.tables db).hotels
          → In x (P.prisma.tables (mutation db).1).hotels)
      → ((db : P.prisma.Db) (x : Error)
          → (mutation db).0 ≡ err x
          → P.prisma.tables (mutation db).1 ≡ P.prisma.tables db)
      → Coherent P c parse ((find_one P c id strong_read >> write_hotel P c id mutation) w).1
  checked-Coherent mutation spared rolled =
      let call = (find_one P c id strong_read >> write_hotel P c id mutation) w in
      let out = find_one P c id strong_read w in
      let loads = find_one-Loads P c laws on id strong_read w in
      let base = Coherent-Loads P c parse id w out loads h in
      elim (Result-cases out.0) [
        | inl (a, e) ↦
            let eq : call ≡ write_hotel P c id mutation out.1 = ground (arith, e) in
            subst (λ (o : Result Hotel × World P). Coherent P c parse o.1) (sym eq)
              (write_hotel-Coherent P c rl on parse id n mutation out.1 spared rolled
                (unfold ready in rw loads.redis up) (rw loads.redis answered) base)
        | inr (x, e) ↦
            let eq : call ≡ (err x, out.1) = ground (arith, e) in
            subst (λ (o : Result Hotel × World P). Coherent P c parse o.1) (sym eq) base
      ]

  update-Coherent : (dto : UpdateHotel) → Coherent P c parse (update P c id dto w).1
  unfolding update
  update-Coherent dto =
      let p = hotel_with id in
      let f = apply_hotel dto in
      checked-Coherent (P.prisma.hotel.update p f)
        (λ db x e m. elim (Result-cases (P.prisma.hotel.update p f db).0) [
          | inl (a, r) ↦
              let (_, _, _, _, out) = laws.hotel.update_ok p f db a r in
              subst (λ (t : Tables). In x t.hotels) (sym out)
                (change-In p f (P.prisma.tables db).hotels x e m)
          | inr (y, r) ↦
              subst (λ (t : Tables). In x t.hotels) (sym (laws.hotel.update_err p f db y r)) m
        ])
        (λ db x r. laws.hotel.update_err p f db x r)

  remove-Coherent : Coherent P c parse (remove P c id w).1
  unfolding remove
  remove-Coherent =
      let p = hotel_with id in
      checked-Coherent (P.prisma.hotel.delete p)
        (λ db x e m. elim (Result-cases (P.prisma.hotel.delete p db).0) [
          | inl (a, r) ↦
              let (_, _, out) = laws.hotel.delete_ok p db a r in
              subst (λ (t : Tables). In x t.hotels) (sym out)
                (keep-In p (P.prisma.tables db).hotels x e m)
          | inr (y, r) ↦
              subst (λ (t : Tables). In x t.hotels) (sym (laws.hotel.delete_err p db y r)) m
        ])
        (λ db x r. laws.hotel.delete_err p db x r)

  -- With sharding, where every cached card is that of a row and Redis is ready and answers the
  -- deletion of the card, every cached card is still that of a row after an update and after a
  -- deletion of a hotel, whether they succeed or not: no card of a changed or deleted row stays.
  pub update_remove-Coherent :
      (dto : UpdateHotel)
      → Coherent P c parse (update P c id dto w).1 × Coherent P c parse (remove P c id w).1
  update_remove-Coherent dto = (update-Coherent dto, remove-Coherent)
