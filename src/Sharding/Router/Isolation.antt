-- ===== src/Sharding/Router/Isolation.antt =====
-- A query on one physical shard touches no other node.
use booking_hotel.Database.Router.{Consistency}
use mathlib.Core.Path.{subst}
use booking_hotel.Database.ConnectionErrors.{is_connection_error}
use booking_hotel.Runtime.Errors.{Error, plain, err, ok, Result}
use booking_hotel.Sharding.Router.{
  reads, read_shard, writes, write_shard, name_of, shard_unavailable, Kind, mark_shard_down,
  mark_shard_up, count, run_physical,
}
use booking_hotel.Prelude.{
  sym, true, ap, ◌∙◌, get_elem?-set_self, refl, get_elem?-set_ne, inr, inl, Option-cases, set,
  arith, ◌≡◌, some, ◌≢◌, [], if◌then◌else◌, none, get_elem?, ℕ,
}
use booking_hotel.Runtime.World.{on_shard, World, Config}
use booking_hotel.Runtime.Platform.{Query, Platform}

module _ (P : Platform) (c : Config) {A : Type 0} where
  -- What the caller of a physical shard receives for its client's answer.
  abbrev pub answered : ℕ → Result A → Result A
  answered index (ok a) = ok a
  answered index (err e) =
      if is_connection_error e then err (shard_unavailable (name_of P c index)) else err e

  -- The answer of a shard whose client is in the state that `w` has.
  abbrev pub answer_of : Query P.prisma.Db A → World P → ℕ → Result A
  answer_of query w index = elim (get_elem? w.shard_dbs index) [
    | none ↦ err (plain [])
    | some db ↦ answered index (query db).0
  ]

  pub run_physical_missing :
      (index : ℕ) (kind : Kind) (query : Query P.prisma.Db A) (w : World P)
      → get_elem? w.shard_dbs index ≡ none
      → run_physical P c index kind query w ≡ (err (plain []), w)
  unfolding run_physical on_shard is_connection_error
  run_physical_missing index kind query w e = ground arith

  run_physical_found :
      (index : ℕ) (kind : Kind) (query : Query P.prisma.Db A) (w : World P) (db : P.prisma.Db)
      → get_elem? w.shard_dbs index ≡ some db
      → let (r, w') = run_physical P c index kind query w in
        (r ≡ answered index (query db).0)
        × (w'.shard_dbs ≡ set w.shard_dbs index (query db).1)
        × (w'.primary_db ≡ w.primary_db)
        × (w'.replica_db ≡ w.replica_db)
  unfolding run_physical on_shard count mark_shard_up mark_shard_down
  run_physical_found index kind query w db e = ground arith

  -- A query on a physical shard gets the answer of that shard's client, leaves the shard's database
  -- as the query does, and changes neither the database of any other shard nor the two databases of
  -- the global node.
  pub run_physical-nodes :
      (index : ℕ) (kind : Kind) (query : Query P.prisma.Db A) (w : World P)
      → let (r, w') = run_physical P c index kind query w in
        (r ≡ answer_of query w index)
        × ((db : P.prisma.Db)
            → get_elem? w.shard_dbs index ≡ some db
            → get_elem? w'.shard_dbs index ≡ some (query db).1)
        × ((j : ℕ) → index ≢ j → get_elem? w'.shard_dbs j ≡ get_elem? w.shard_dbs j)
        × (w'.primary_db ≡ w.primary_db)
        × (w'.replica_db ≡ w.replica_db)
  run_physical-nodes index kind query w = elim (Option-cases (get_elem? w.shard_dbs index)) [
    | inl e ↦
        let gone = run_physical_missing index kind query w e in
        (ground (arith, gone), λ db f. cc, λ j ne. rw gone refl, rw gone refl, rw gone refl)
    | inr (db, e) ↦
        let (r, dbs, p, q) = run_physical_found index kind query w db e in
        (
          ground (arith, r),
          λ db' f.
              let same : db ≡ db' = cc in
              rw dbs (
                get_elem?-set_self w.shard_dbs index (query db).1 db e
                ∙ ap (λ x. some (query x).1) same),
          λ j ne. rw dbs (get_elem?-set_ne w.shard_dbs index j (query db).1 ne),
          p,
          q,
        )
  ]

-- The same of a write, as its caller needs it: what the error or the value says of the mutation.
pub record Wrote {P : Platform} {A : Type 0} (index : ℕ) (mutation : Query P.prisma.Db A)
    (w : World P) (db : P.prisma.Db) (out : Result A × World P) : Type 0 where
  pub here : get_elem? out.1.shard_dbs index ≡ some (mutation db).1
  pub others : (j : ℕ) → index ≢ j → get_elem? out.1.shard_dbs j ≡ get_elem? w.shard_dbs j
  pub value : (a : A) → out.0 ≡ ok a → (mutation db).0 ≡ ok a
  pub error : (e : Error) → out.0 ≡ err e → (x : Error) × ((mutation db).0 ≡ err x)

module _ (P : Platform) (c : Config) {A : Type 0} where
  answered-ok : (index : ℕ) (r : Result A) (a : A) → answered P c index r ≡ ok a → r ≡ ok a
  answered-ok index (ok b) a e = e
  answered-ok index (err x) a e = absurd (ground arith)

  answered-err :
      (index : ℕ) (r : Result A) (e : Error)
      → answered P c index r ≡ err e
      → (x : Error) × (r ≡ err x)
  answered-err index (ok b) e h = cc
  answered-err index (err x) e h = (x, refl)

  pub write_shard-Wrote :
      (index : ℕ) (mutation : Query P.prisma.Db A) (w : World P) (db : P.prisma.Db)
      → c.sharded ≡ true
      → get_elem? w.shard_dbs index ≡ some db
      → Wrote index mutation w db (write_shard P c index mutation w)
  unfolding write_shard
  write_shard-Wrote index mutation w db on at =
      let (r, dbs, _, _) = run_physical_found P c index writes mutation w db at in
      let (_, _, others, _, _) = run_physical-nodes P c index writes mutation w in
      let eq : write_shard P c index mutation w ≡ run_physical P c index writes mutation w =
        ground arith in
      subst (Wrote index mutation w db) (sym eq) (record {
        here = rw dbs (get_elem?-set_self w.shard_dbs index (mutation db).1 db at);
        others = others;
        value = λ a e. answered-ok index (mutation db).0 a (sym r ∙ e);
        error = λ x e. answered-err index (mutation db).0 x (sym r ∙ e);
      })

  -- A read, which may change hidden state of the client.
  pub read_shard-Wrote :
      (index : ℕ) (query : Query P.prisma.Db A) (consistency : Consistency) (w : World P)
      (db : P.prisma.Db)
      → c.sharded ≡ true
      → get_elem? w.shard_dbs index ≡ some db
      → Wrote index query w db (read_shard P c index query consistency w)
  unfolding read_shard
  read_shard-Wrote index query consistency w db on at =
      let (r, dbs, _, _) = run_physical_found P c index reads query w db at in
      let (_, _, others, _, _) = run_physical-nodes P c index reads query w in
      let eq : read_shard P c index query consistency w ≡ run_physical P c index reads query w =
        ground arith in
      subst (Wrote index query w db) (sym eq) (record {
        here = rw dbs (get_elem?-set_self w.shard_dbs index (query db).1 db at);
        others = others;
        value = λ a e. answered-ok index (query db).0 a (sym r ∙ e);
        error = λ x e. answered-err index (query db).0 x (sym r ∙ e);
      })

  -- A shard that answers has a client, whose answer it is.
  pub answer_of-ok :
      (query : Query P.prisma.Db A) (w : World P) (index : ℕ) (a : A)
      → answer_of P c query w index ≡ ok a
      → (db : P.prisma.Db) × (get_elem? w.shard_dbs index ≡ some db) × ((query db).0 ≡ ok a)
  answer_of-ok query w index a e = elim (Option-cases (get_elem? w.shard_dbs index)) [
    | inl gone ↦ absurd (ground (arith, gone, e))
    | inr (db, found) ↦ (db, found, answered-ok index (query db).0 a (ground (arith, found, e)))
  ]
