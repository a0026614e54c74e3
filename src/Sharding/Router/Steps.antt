-- ===== src/Sharding/Router/Steps.antt =====
-- A method that works on one shard, call by call: what the shard's tables are, and that no other
-- shard has changed.
use booking_hotel.Prelude.{ℕ, ◌≡◌, ◌≢◌, ◌∙◌, true, some, get_elem?, refl}
use booking_hotel.Schema.{Tables}
use booking_hotel.Runtime.Errors.{Error, ok, err}
use booking_hotel.Runtime.Platform.{Platform, Query}
use booking_hotel.Runtime.World.{World, Config}
use booking_hotel.Database.Router.{Consistency}
use booking_hotel.Sharding.Router.{read_shard, write_shard}
use booking_hotel.Sharding.Router.Isolation.{read_shard-Wrote, write_shard-Wrote}

-- From `w0` to `w` only shard `k` may have changed, and its tables are `t`.
pub record Settled {P : Platform} (k : ℕ) (t : Tables) (w0 w : World P) : Type 0 where
  pub db : P.prisma.Db
  pub here : get_elem? w.shard_dbs k ≡ some db
  pub tables : P.prisma.tables db ≡ t
  pub others : (j : ℕ) → k ≢ j → get_elem? w.shard_dbs j ≡ get_elem? w0.shard_dbs j

module _ (P : Platform) where
  pub Settled-same :
      (k : ℕ) (t : Tables) (w0 w w' : World P)
      → w'.shard_dbs ≡ w.shard_dbs
      → Settled k t w0 w
      → Settled k t w0 w'
  Settled-same k t w0 w w' same s = record {
    db = s.db;
    here = rw same s.here;
    tables = s.tables;
    others = λ j ne. rw same (s.others j ne);
  }

module _ (P : Platform) (c : Config) {A : Type 0} (on : c.sharded ≡ true) (k : ℕ)
    (query : Query P.prisma.Db A) where
  -- A read: the tables stay, and the answer is the client's.
  pub read_shard-Settled :
      (consistency : Consistency) (t : Tables) (w0 w : World P)
      → ((db : P.prisma.Db) → P.prisma.tables (query db).1 ≡ P.prisma.tables db)
      → Settled k t w0 w
      → let out = read_shard P c k query consistency w in
        Settled k t w0 out.1
        × ((a : A)
            → out.0 ≡ ok a
            → (db : P.prisma.Db) × (P.prisma.tables db ≡ t) × ((query db).0 ≡ ok a))
  read_shard-Settled consistency t w0 w same s =
      let wrote = read_shard-Wrote P c k query consistency w s.db on s.here in
      (
        record {
          db = (query s.db).1;
          here = wrote.here;
          tables = same s.db ∙ s.tables;
          others = λ j ne. wrote.others j ne ∙ s.others j ne;
        },
        λ a e. (s.db, s.tables, wrote.value a e),
      )

  -- A write: the tables are as the mutation leaves them.
  pub write_shard-Settled :
      (t : Tables) (w0 w : World P)
      → Settled k t w0 w
      → let out = write_shard P c k query w in
        (db : P.prisma.Db) × (P.prisma.tables db ≡ t)
        × Settled k (P.prisma.tables (query db).1) w0 out.1
        × ((a : A) → out.0 ≡ ok a → (query db).0 ≡ ok a)
        × ((e : Error) → out.0 ≡ err e → (x : Error) × ((query db).0 ≡ err x))
  write_shard-Settled t w0 w s =
      let wrote = write_shard-Wrote P c k query w s.db on s.here in
      (
        s.db,
        s.tables,
        record {
          db = (query s.db).1;
          here = wrote.here;
          tables = refl;
          others = λ j ne. wrote.others j ne ∙ s.others j ne;
        },
        wrote.value,
        wrote.error,
      )
