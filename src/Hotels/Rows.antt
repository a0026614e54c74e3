-- ===== src/Hotels/Rows.antt =====
-- The rows of the shards and the state of Redis around a call of HotelsService
-- (src/hotels/hotels.service.ts).
use booking_hotel.Prelude.{
  ◌≡◌, ◌≢◌, ◌∙◌, ◌==◌, ℕ, Bool, true, false, some, get_elem?, sym, inl, inr, arith, Bool-cases,
  Option-cases,
}
use mathlib.Core.Path.{subst}
use booking_hotel.Schema.{Hotel, Tables}
use booking_hotel.Runtime.Errors.{Error, err}
use booking_hotel.Runtime.Platform.{Platform, Query, In}
use booking_hotel.Runtime.World.{on_shard, World, Config}
use booking_hotel.Database.Router.{Consistency}
use booking_hotel.Sharding.Router.{
  Kind, mark_shard_down, mark_shard_up, count, read_shard, write_shard, run_physical, reads, writes,
}
use booking_hotel.Sharding.Router.Isolation.{
  read_shard-Wrote, write_shard-Wrote, run_physical_missing,
}

abbrev pub none_picked : Hotel → Bool
none_picked h = false

module _ {P : Platform} where
  -- Every shard still has its client, and every row that `p` does not pick.
  abbrev pub Spares : (Hotel → Bool) → World P → World P → Type 0
  Spares p w w' =
      (j : ℕ) (db : P.prisma.Db)
      → get_elem? w.shard_dbs j ≡ some db
      → (db' : P.prisma.Db) × (get_elem? w'.shard_dbs j ≡ some db')
        × ((h : Hotel)
            → p h ≡ false
            → In h (P.prisma.tables db).hotels
            → In h (P.prisma.tables db').hotels)

  pub Spares-same : (p : Hotel → Bool) (w w' : World P) → w'.shard_dbs ≡ w.shard_dbs → Spares p w w'
  Spares-same p w w' same j db at = (db, rw same at, λ h e m. m)

  pub Spares-then :
      (p q : Hotel → Bool) (w w' w'' : World P)
      → ((h : Hotel) → p h ≡ false → q h ≡ false)
      → Spares q w w'
      → Spares p w' w''
      → Spares p w w''
  Spares-then p q w w' w'' less f g j db at =
      let (db1, at1, kept1) = f j db at in
      let (db2, at2, kept2) = g j db1 at1 in (db2, at2, λ h e m. kept2 h e (kept1 h (less h e) m))

  Spares-one :
      (p : Hotel → Bool) (w w' : World P) (k : ℕ) (db0 db1 : P.prisma.Db)
      → get_elem? w.shard_dbs k ≡ some db0
      → get_elem? w'.shard_dbs k ≡ some db1
      → ((h : Hotel)
          → p h ≡ false
          → In h (P.prisma.tables db0).hotels
          → In h (P.prisma.tables db1).hotels)
      → ((j : ℕ) → k ≢ j → get_elem? w'.shard_dbs j ≡ get_elem? w.shard_dbs j)
      → Spares p w w'
  Spares-one p w w' k db0 db1 at0 at1 kept others j db at = elim (Bool-cases (k == j)) [
    | inl same ↦
        let q : k ≡ j = ground (arith, same) in
        let found : db0 ≡ db = ground (arith, at0, at, q) in
        (
          db1,
          subst (λ i. get_elem? w'.shard_dbs i ≡ some db1) q at1,
          λ h e m.
              kept h e (subst (λ (d : P.prisma.Db). In h (P.prisma.tables d).hotels) (sym found) m),
        )
    | inr other ↦ (db, others j (λ q. absurd (ground (arith, other, q))) ∙ at, λ h e m. m)
  ]

module _ (P : Platform) (c : Config) {A : Type 0} (on : c.sharded ≡ true) where
  run_physical-redis :
      (index : ℕ) (kind : Kind) (query : Query P.prisma.Db A) (w : World P)
      → (run_physical P c index kind query w).1.redis ≡ w.redis
  unfolding run_physical on_shard count mark_shard_up mark_shard_down
  run_physical-redis index kind query w = ground arith

  pub write_shard-redis :
      (index : ℕ) (mutation : Query P.prisma.Db A) (w : World P)
      → (write_shard P c index mutation w).1.redis ≡ w.redis
  unfolding write_shard
  write_shard-redis index mutation w =
      let same = run_physical-redis index writes mutation w in ground (arith, same)

  pub read_shard-redis :
      (index : ℕ) (query : Query P.prisma.Db A) (consistency : Consistency) (w : World P)
      → (read_shard P c index query consistency w).1.redis ≡ w.redis
  unfolding read_shard
  read_shard-redis index query consistency w =
      let same = run_physical-redis index reads query w in ground (arith, same)

  pub read_shard-Spares :
      (index : ℕ) (query : Query P.prisma.Db A) (consistency : Consistency) (w : World P)
      → ((db : P.prisma.Db) → P.prisma.tables (query db).1 ≡ P.prisma.tables db)
      → Spares none_picked w (read_shard P c index query consistency w).1
  read_shard-Spares index query consistency w same =
      elim (Option-cases (get_elem? w.shard_dbs index)) [
        | inl e ↦
            let gone = run_physical_missing P c index reads query w e in
            Spares-same none_picked w (read_shard P c index query consistency w).1
              (unfold read_shard in ground (arith, gone))
        | inr (db, e) ↦
            let wrote = read_shard-Wrote P c index query consistency w db on e in
            Spares-one none_picked w (read_shard P c index query consistency w).1 index db
              (query db).1 e wrote.here
              (λ h q m. subst (λ (t : Tables). In h t.hotels) (sym (same db)) m) wrote.others
      ]

  -- A write that spares the rows that `p` does not pick, and all of them where it rejects.
  pub write_shard-Spares :
      (index : ℕ) (mutation : Query P.prisma.Db A) (p : Hotel → Bool) (w : World P)
      → ((db : P.prisma.Db) (h : Hotel)
          → p h ≡ false
          → In h (P.prisma.tables db).hotels
          → In h (P.prisma.tables (mutation db).1).hotels)
      → ((db : P.prisma.Db) (x : Error)
          → (mutation db).0 ≡ err x
          → P.prisma.tables (mutation db).1 ≡ P.prisma.tables db)
      → let out = write_shard P c index mutation w in
        Spares p w out.1 × ((x : Error) → out.0 ≡ err x → Spares none_picked w out.1)
  write_shard-Spares index mutation p w spared rolled =
      elim (Option-cases (get_elem? w.shard_dbs index)) [
        | inl e ↦
            let gone = run_physical_missing P c index writes mutation w e in
            let out = write_shard P c index mutation w in
            let same : out.1.shard_dbs ≡ w.shard_dbs = unfold write_shard in ground (arith, gone) in
            (Spares-same p w out.1 same, λ x f. Spares-same none_picked w out.1 same)
        | inr (db, e) ↦
            let wrote = write_shard-Wrote P c index mutation w db on e in
            let out = write_shard P c index mutation w in
            (
              Spares-one p w out.1 index db (mutation db).1 e wrote.here (spared db) wrote.others,
              λ x f.
                  let (y, failed) = wrote.error x f in
                  Spares-one none_picked w out.1 index db (mutation db).1 e wrote.here
                    (λ h q m. subst (λ (t : Tables). In h t.hotels) (sym (rolled db y failed)) m)
                    wrote.others,
            )
      ]
