-- ===== src/Bookings/Ledger/Shards.antt =====
-- The ledgers of all shards, from one state of the application to another.
use booking_hotel.Sharding.Router.Isolation.{
  read_shard-Wrote, write_shard-Wrote, run_physical_missing,
}
use booking_hotel.Database.Router.{Consistency}
use booking_hotel.Sharding.Router.{writes, reads, read_shard, write_shard}
use booking_hotel.Prelude.{
  ◌∙◌, ◌≡◌, ◌≢◌, ◌==◌, ℕ, true, some, List, get_elem?, sym, inl, inr, arith, Bool-cases,
  Option-cases,
}
use mathlib.Core.Path.{subst}
use booking_hotel.Schema.{Tables}
use booking_hotel.Runtime.Platform.{Platform, Query}
use booking_hotel.Runtime.World.{World, Config}
use booking_hotel.Bookings.Ledger.{◌⟶*◌, here, follow}
use booking_hotel.Bookings.Ledger.Invariant.{Valid, ⟶*-Valid}

module _ {P : Platform} where
  abbrev pub Held : World P → ℕ → P.prisma.Db → Type 0
  Held w j db = get_elem? w.shard_dbs j ≡ some db

  -- Every shard holds a valid table.
  abbrev pub AllValid : World P → Type 0
  AllValid w = (j : ℕ) (db : P.prisma.Db) → Held w j db → Valid (P.prisma.tables db)

  -- Every shard has come from the table that it held by moves of the ledger.
  abbrev pub Advances : World P → World P → Type 0
  Advances w w' =
      (j : ℕ) (db' : P.prisma.Db)
      → Held w' j db'
      → (db : P.prisma.Db) × Held w j db × (P.prisma.tables db ⟶* P.prisma.tables db')

  pub Advances-same : (w w' : World P) → w'.shard_dbs ≡ w.shard_dbs → Advances w w'
  Advances-same w w' same j db' at =
      (db', subst (λ (l : List P.prisma.Db). get_elem? l j ≡ some db') same at, here)

  pub Advances-then : (w w' w'' : World P) → Advances w w' → Advances w' w'' → Advances w w''
  Advances-then w w' w'' f g j db'' at =
      let (db', at', moves') = g j db'' at in
      let (db, at0, moves) = f j db' at' in (db, at0, follow moves moves')

  pub Advances-Valid : (w w' : World P) → Advances w w' → AllValid w → AllValid w'
  Advances-Valid w w' f v j db' at =
      let (db, at0, moves) = f j db' at in ⟶*-Valid moves (v j db at0)

  -- One shard moves, and the others are as they were.
  pub Advances-one :
      (w w' : World P) (k : ℕ) (db0 db1 : P.prisma.Db)
      → Held w k db0
      → Held w' k db1
      → P.prisma.tables db0 ⟶* P.prisma.tables db1
      → ((j : ℕ) → k ≢ j → get_elem? w'.shard_dbs j ≡ get_elem? w.shard_dbs j)
      → Advances w w'
  Advances-one w w' k db0 db1 at0 at1 moves others j db' at = elim (Bool-cases (k == j)) [
    | inl same ↦
        let q : k ≡ j = ground (arith, same) in
        let found : db1 ≡ db' = ground (arith, at1, at, q) in
        (
          db0,
          subst (λ i. Held w i db0) q at0,
          subst (λ (x : P.prisma.Db). P.prisma.tables db0 ⟶* P.prisma.tables x) found moves,
        )
    | inr other ↦ (db', sym (others j (λ q. absurd (ground (arith, other, q)))) ∙ at, here)
  ]

  -- Two shards move, and the others are as they were.
  pub Advances-two :
      (w w' : World P) (k i : ℕ) (db0 db1 db2 db3 : P.prisma.Db)
      → Held w k db0
      → Held w' k db1
      → P.prisma.tables db0 ⟶* P.prisma.tables db1
      → Held w i db2
      → Held w' i db3
      → P.prisma.tables db2 ⟶* P.prisma.tables db3
      → ((j : ℕ) → k ≢ j → i ≢ j → get_elem? w'.shard_dbs j ≡ get_elem? w.shard_dbs j)
      → Advances w w'
  Advances-two w w' k i db0 db1 db2 db3 at0 at1 moves at2 at3 moves' others j db' at =
      elim (Bool-cases (k == j)) [
        | inl same ↦
            let q : k ≡ j = ground (arith, same) in
            let found : db1 ≡ db' = ground (arith, at1, at, q) in
            (
              db0,
              subst (λ n. Held w n db0) q at0,
              subst (λ (x : P.prisma.Db). P.prisma.tables db0 ⟶* P.prisma.tables x) found moves,
            )
        | inr other ↦ elim (Bool-cases (i == j)) [
          | inl same ↦
              let q : i ≡ j = ground (arith, same) in
              let found : db3 ≡ db' = ground (arith, at3, at, q) in
              (
                db2,
                subst (λ n. Held w n db2) q at2,
                subst (λ (x : P.prisma.Db). P.prisma.tables db2 ⟶* P.prisma.tables x) found moves',
              )
          | inr apart ↦ (
            db',
            sym (
                  others j (λ q. absurd (ground (arith, other, q)))
                    (λ q. absurd (ground (arith, apart, q))))
                ∙ at,
            here,
          )
        ]
      ]

module _ (P : Platform) (c : Config) {A : Type 0} (on : c.sharded ≡ true) where
  -- A write on a shard whose mutation moves that shard's table along the ledger.
  pub write_shard-Advances :
      (index : ℕ) (mutation : Query P.prisma.Db A) (w : World P)
      → ((db : P.prisma.Db)
          → Held w index db
          → P.prisma.tables db ⟶* P.prisma.tables (mutation db).1)
      → Advances w (write_shard P c index mutation w).1
  write_shard-Advances index mutation w moves = elim (Option-cases (get_elem? w.shard_dbs index)) [
    | inl e ↦
        let gone = run_physical_missing P c index writes mutation w e in
        Advances-same w (write_shard P c index mutation w).1
          (unfold write_shard in ground (arith, gone))
    | inr (db, e) ↦
        let wrote = write_shard-Wrote P c index mutation w db on e in
        Advances-one w (write_shard P c index mutation w).1 index db (mutation db).1 e wrote.here
          (moves db e) wrote.others
  ]

  -- A read.
  pub read_shard-Advances :
      (index : ℕ) (query : Query P.prisma.Db A) (consistency : Consistency) (w : World P)
      → ((db : P.prisma.Db) → P.prisma.tables (query db).1 ≡ P.prisma.tables db)
      → Advances w (read_shard P c index query consistency w).1
  read_shard-Advances index query consistency w same =
      elim (Option-cases (get_elem? w.shard_dbs index)) [
        | inl e ↦
            let gone = run_physical_missing P c index reads query w e in
            Advances-same w (read_shard P c index query consistency w).1
              (unfold read_shard in ground (arith, gone))
        | inr (db, e) ↦
            let wrote = read_shard-Wrote P c index query consistency w db on e in
            Advances-one w (read_shard P c index query consistency w).1 index db (query db).1 e
              wrote.here (subst (λ (t : Tables). P.prisma.tables db ⟶* t) (sym (same db)) here)
              wrote.others
      ]
