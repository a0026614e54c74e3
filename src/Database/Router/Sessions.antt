-- ===== src/Database/Router/Sessions.antt =====
-- Sessions that have written, and what happens at the application between their requests:
-- src/database/db-router.service.ts.
use booking_hotel.Prelude.{
  ◌≡◌, ◌∙◌, ◌+◌, ◌<◌, ◌≤◌, ℕ, true, some, List, Option, JsString, str_eq, str_eq→eq, inl, inr,
  arith, ap, Bool-cases,
}
use booking_hotel.Runtime.Errors.{ok}
use booking_hotel.Runtime.Platform.{Platform, Query}
use booking_hotel.Runtime.World.{World, Config, RequestContext, sticky}
use booking_hotel.Database.Router.{
  Consistency, eventual_read, sticky_get, sticky_set, write_with, read, probe_nodes,
}
use booking_hotel.Database.Router.Routing.{
  sticky_get-set, write_with-IsStuck, is_sticky_local, read_primary_ok, read_eventual_sticky,
}
use booking_hotel.Database.Router.Sticky.{
  write_with-table, probe_nodes-table, read-Keeps, sticky_get-set_ne, sticky_get-prune,
}

module _ (P : Platform) (c : Config) where
  -- From one state of the application to a later one: calls of DbRouter for any session, probes of
  -- the nodes, and between them the next request, time that passes, and whatever other clients do
  -- to the nodes and to Redis.
  pub data Later (start : World P) : World P → Type 1 where
    now_itself : Later start start
    written :
        {w : World P} {A : Type 0} (mutation : Query P.prisma.Db A)
        → Later start w
        → Later start (write_with P c mutation w).1
    looked_up :
        {w : World P} {A : Type 0} (query : Query P.prisma.Db A) (consistency : Consistency)
        → Later start w
        → Later start (read P c query consistency w).1
    probed : {w : World P} → Later start w → Later start (probe_nodes P c w)
    elsewhere :
        {w : World P} (t : ℕ) (context : Option RequestContext)
        (primary_db replica_db : P.prisma.Db) (shard_dbs : List P.prisma.Db)
        (redis : P.redis.Client)
        → w.now ≤ t
        → Later start w
        → Later start (record w {
          now = t;
          context = context;
          primary_db = primary_db;
          replica_db = replica_db;
          shard_dbs = shard_dbs;
          redis = redis;
        })

  -- The session `sid` is sticky until `until` or longer.
  abbrev Remembers : JsString → ℕ → World P → Type 0
  Remembers sid until w = (t : ℕ) × (sticky_get sid w.router.local_sticky ≡ some t) × (until ≤ t)

  Later-now : (start w : World P) → Later start w → start.now ≤ w.now
  Later-now start w now_itself = omega arith
  Later-now start w (written {w = v} mutation l) =
      let before = Later-now start v l in
      let same = (write_with-table P c mutation v).0 in omega (arith, before, same)
  Later-now start w (looked_up {w = v} query consistency l) =
      let before = Later-now start v l in
      let same = (read-Keeps P c query consistency v).0 in omega (arith, before, same)
  Later-now start w (probed {w = v} l) =
      let before = Later-now start v l in
      let same = (probe_nodes-table P c v).0 in omega (arith, before, same)
  Later-now start w (elsewhere {w = v} t context primary_db replica_db shard_dbs redis le l) =
      let before = Later-now start v l in omega (arith, before, le)

  Later-Remembers :
      (sid : JsString) (until : ℕ) (start w : World P)
      → until ≤ start.now + c.sticky_ttl_ms
      → Remembers sid until start
      → Later start w
      → w.now < until
      → Remembers sid until w
  Later-Remembers sid until start w le h now_itself lt = h
  Later-Remembers sid until start w le h (written {w = v} mutation l) lt =
      let (same, table) = write_with-table P c mutation v in
      let (t, found, long) = Later-Remembers sid until start v le h l (omega (arith, lt, same)) in
      let after = Later-now start v l in
      elim table [
        | inl kept ↦ (t, ap (sticky_get sid) kept ∙ found, long)
        | inr (j, new) ↦ elim (Bool-cases (str_eq j sid)) [
          | inl own ↦
              let q : j ≡ sid = str_eq→eq j sid own in
              (
                v.now + c.sticky_ttl_ms,
                ap (sticky_get sid) new
                    ∙ ap
                        (λ (x : JsString).
                          sticky_get sid
                            (sticky_set x (v.now + c.sticky_ttl_ms) v.router.local_sticky))
                        q
                    ∙ sticky_get-set sid (v.now + c.sticky_ttl_ms) v.router.local_sticky,
                omega (arith, le, after),
              )
          | inr others ↦ (
            t,
            ap (sticky_get sid) new
                ∙ sticky_get-set_ne sid j (v.now + c.sticky_ttl_ms) v.router.local_sticky others
                ∙ found,
            long,
          )
        ]
      ]
  Later-Remembers sid until start w le h (looked_up {w = v} query consistency l) lt =
      let (same, table) = read-Keeps P c query consistency v in
      let (t, found, long) = Later-Remembers sid until start v le h l (omega (arith, lt, same)) in
      (t, ap (sticky_get sid) table ∙ found, long)
  Later-Remembers sid until start w le h (probed {w = v} l) lt =
      let (same, table) = probe_nodes-table P c v in
      let (t, found, long) = Later-Remembers sid until start v le h l (omega (arith, lt, same)) in
      (
        t,
        ap (sticky_get sid) table
            ∙ sticky_get-prune P c sid t v.now v.router.local_sticky (omega (arith, lt, same, long))
                found,
        long,
      )
  Later-Remembers sid until start w le h
        (elsewhere {w = v} t context primary_db replica_db shard_dbs redis ahead l) lt =
      Later-Remembers sid until start v le h l (omega (arith, lt, ahead))

  module _ {A B : Type 0} where
    -- Read your own writes: with a Replica, after a successful write of a session that finds the
    -- context of a request, any eventual read of that session in this or a later request, before
    -- the sticky time has passed, returns the answer of the Primary as it is then, if the Primary
    -- is taken for healthy and answers, and leaves the Replica alone, whatever reads and writes of
    -- any session and whatever probes the router has served in between, and whatever the nodes and
    -- Redis have done.
    pub read_your_writes :
        (mutation : Query P.prisma.Db A) (query : Query P.prisma.Db B) (w w' : World P)
        (ctx ctx' : RequestContext) (a : A) (b : B)
        → c.replica_enabled ≡ true
        → w.context ≡ some ctx
        → (write_with P c mutation w).0 ≡ ok a
        → Later (write_with P c mutation w).1 w'
        → w'.context ≡ some ctx'
        → ctx'.session_id ≡ ctx.session_id
        → w'.now < w.now + c.sticky_ttl_ms
        → w'.router.primary_health.healthy ≡ true
        → (query w'.primary_db).0 ≡ ok b
        → ((read P c query eventual_read w').0 ≡ ok b)
          × ((read P c query eventual_read w').1.replica_db ≡ w'.replica_db)
    read_your_writes mutation query w w' ctx ctx' a b en at wrote l at' same lt up answers =
        let start = (write_with P c mutation w).1 in
        let until = w.now + c.sticky_ttl_ms in
        let (now_same, _) = write_with-table P c mutation w in
        let passed = Later-now start w' l in
        let positive : 0 < c.sticky_ttl_ms = omega (arith, lt, passed, now_same) in
        let s = write_with-IsStuck P c mutation w ctx a en positive at wrote in
        let (t, found, long) =
          Later-Remembers ctx.session_id until start w' (omega (arith, now_same))
            (until, s.local, omega arith) l lt in
        let stuck =
          is_sticky_local P c w' ctx' t positive at' (rw same found) (omega (arith, lt, long)) in
        rw (read_eventual_sticky P c query w' en stuck)
          (read_primary_ok P c query sticky w' b up answers)
