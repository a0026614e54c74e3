-- ===== src/Sharding/Router.antt =====
-- ShardRouter, src/sharding/shard-router.service.ts: the route of an identifier, reads and writes
-- on the shard that owns it, and fan-out over all shards. A shard is its index. The queries of a
-- fan-out run in parallel in the source, each on a client of its own; here they run in the order of
-- the shards. Timings and log lines are left out.
mod Tests
pub mod Colocation
pub mod Report
pub mod Isolation
pub mod FanOut
pub mod Merge
pub mod Steps
use booking_hotel.Database.ConnectionErrors.{is_connection_error}
use booking_hotel.Database.State.{add_once, short_error}
use booking_hotel.Database.Router.{read, write_with, Consistency}
use booking_hotel.Sharding.Key.{
  city, buckets, bucket_for_new_hotel, normalize_city, id_in_bucket, fnv1a, hash, bucket_of,
  shard_name,
}
use booking_hotel.Runtime.Errors.{err, Result, ok, plain, http, Error}
use booking_hotel.Runtime.World.{
  pure, ◌>>=◌, random_uuid, Action, on_shard, World, Config, ShardStats,
}
use booking_hotel.Runtime.Platform.{Query, Platform}
use booking_hotel.Prelude.{
  ◌%◌, str_eq, ◌==◌, some, none, keep, length, false, true, adjust, set, get_or, range_from,
  if◌then◌else◌, Bool, map, Option, ◌++◌, ◌+◌, ℕ, js, List, JsString, [], ◌∷◌,
}

pub record FanOutPart (A : Type 0) : Type 0 where
  pub shard : JsString
  pub result : A

pub record FanOutResult (A : Type 0) : Type 0 where
  pub parts : List (FanOutPart A)
  pub failed : List JsString

pub data Kind : Type 0 where
  reads writes : Kind

abbrev pub bump : Kind → ShardStats → ShardStats
bump reads s = record s { reads = s.reads + 1 }
bump writes s = record s { writes = s.writes + 1 }

unfoldable pub shard_unavailable : JsString → Error
unfolding js
shard_unavailable name =
    http 503
      (js "Шард " ++ (name ++ js " недоступний: дані інших шардів продовжують обслуговуватися"))

module _ {P : Platform} where
  -- `this.stats[index][kind]++; this.totals.local++`
  unfoldable pub count : ℕ → Kind → World P → World P
  count index kind w = record w {
    shards = record w.shards {
      stats = adjust (bump kind) w.shards.stats index;
      totals = record w.shards.totals { local = w.shards.totals.local + 1 };
    };
  }

  unfoldable pub mark_shard_down : ℕ → Error → World P → World P
  mark_shard_down index e w = record w {
    shards = record w.shards {
      health =
          set w.shards.health index (record { healthy = false; last_error = some (short_error e) });
      stats = adjust (λ s. record s { errors = s.errors + 1 }) w.shards.stats index;
    };
  }

  unfoldable pub mark_shard_up : ℕ → World P → World P
  mark_shard_up index w = record w {
    shards = record w.shards {
      health = set w.shards.health index (record { healthy = true; last_error = none });
    };
  }

  -- `annotate({ shard, bucket })`: X-Shard is a set in the order of insertion.
  unfoldable pub annotate_shard : JsString → ℕ → World P → World P
  annotate_shard name bucket w = record w {
    context = elim w.context [
      | none ↦ none
      | some ctx ↦ some (
          if ctx.headers_sent then ctx else record ctx {
            headers = record ctx.headers {
              shards = add_once str_eq name ctx.headers.shards;
              shard_bucket = some bucket;
            };
          })
    ];
  }

  -- `annotate({ fanOut, partial })`, without X-Shard-Partial where no shard failed.
  unfoldable pub annotate_fan_out : List JsString → List JsString → World P → World P
  annotate_fan_out names failed w = record w {
    context = elim w.context [
      | none ↦ none
      | some ctx ↦ some (
          if ctx.headers_sent then ctx else record ctx {
            headers = record ctx.headers {
              shards = names;
              shard_fanout = some (length names);
              shard_partial = elim failed [ [] ↦ ctx.headers.shard_partial | x ∷ xs ↦ x ∷ xs ];
            };
          })
    ];
  }

module _ (P : Platform) (c : Config) where
  unfoldable pub name_of : ℕ → JsString
  unfolding shard_name js
  name_of index = if c.sharded then shard_name index else js "global"

  unfoldable pub shard_of : JsString → ℕ
  shard_of id = get_or c.bucket_map (bucket_of id) 0

  -- `forKey(id)`
  unfoldable pub for_key : JsString → Action P ℕ
  for_key id w = (ok (shard_of id), annotate_shard (name_of (shard_of id)) (bucket_of id) w)

  -- The result of `describe(id)`, less the identifier and the strategy.
  unfoldable pub describe : JsString → ℕ × JsString
  describe id = (bucket_of id, name_of (shard_of id))

  unfoldable pub shard_for_city : JsString → Option ℕ
  shard_for_city name = elim c.strategy [
    | hash ↦ none
    | city ↦ some (get_or c.bucket_map (fnv1a (normalize_city P.js.to_lower_case name) % buckets) 0)
  ]

  unfoldable pub new_hotel_id : JsString → Action P JsString
  unfolding random_uuid
  new_hotel_id name = do
    uuid ← random_uuid
    pure (id_in_bucket (bucket_for_new_hotel P.js.to_lower_case c.strategy uuid name) uuid)

  unfoldable pub child_id : JsString → Action P JsString
  unfolding random_uuid
  child_id parent_id = do uuid ← random_uuid; pure (id_in_bucket (bucket_of parent_id) uuid)

  -- `run(fn, kind)` of `physicalShard`.
  unfoldable pub run_physical : {A : Type 0} → ℕ → Kind → Query P.prisma.Db A → Action P A
  run_physical index kind query w =
      let (r, w') = on_shard index query (plain []) w in
      elim r [
        | ok a ↦ (ok a, mark_shard_up index (count index kind w'))
        | err e ↦ elim (is_connection_error e) [
          | true ↦ (err (shard_unavailable (name_of index)), mark_shard_down index e w')
          | false ↦ (err e, w')
        ]
      ]

  -- `shard.read(query, consistency)`: a physical shard has one node, and ignores the consistency.
  unfoldable pub read_shard : {A : Type 0} → ℕ → Query P.prisma.Db A → Consistency → Action P A
  read_shard index query consistency w =
      if c.sharded
      then run_physical index reads query w
      else read P c query consistency (count 0 reads w)

  -- `shard.write(mutation)`
  unfoldable pub write_shard : {A : Type 0} → ℕ → Query P.prisma.Db A → Action P A
  write_shard index mutation w =
      if c.sharded
      then run_physical index writes mutation w
      else write_with P c mutation (count 0 writes w)

  -- One promise of `Promise.allSettled`.
  unfoldable pub ask :
      {A : Type 0} → Query P.prisma.Db A → Consistency → ℕ → World P → Result A × World P
  ask query consistency index w =
      let (r, w') = read_shard index query consistency w in
      elim r [
        | ok a ↦ (
          ok a,
          record w' {
            shards = record w'.shards {
              stats =
                  adjust (λ s. record s { fan_out_queries = s.fan_out_queries + 1 }) w'.shards.stats
                    index;
            };
          },
        )
        | err e ↦ (err e, w')
      ]

  unfoldable pub settle_all :
      {A : Type 0}
      → Query P.prisma.Db A
      → Consistency
      → List ℕ
      → World P
      → List (ℕ × Result A) × World P
  settle_all query consistency [] w = ([], w)
  settle_all query consistency (i ∷ is) w =
      let (r, w') = ask query consistency i w in
      let (rest, w'') = settle_all query consistency is w' in ((i, r) ∷ rest, w'')

  -- `settled.forEach(…)`: without `allowPartial` the first rejection is thrown.
  unfoldable pub gather : {A : Type 0} → Bool → List (ℕ × Result A) → Result (FanOutResult A)
  gather allow_partial [] = ok (record { parts = []; failed = [] })
  gather allow_partial ((i, ok a) ∷ rest) = elim (gather allow_partial rest) [
    | ok res ↦ ok (record res { parts = record { shard = name_of i; result = a } ∷ res.parts })
    | err e ↦ err e
  ]
  gather allow_partial ((i, err e) ∷ rest) =
      if allow_partial
      then elim (gather allow_partial rest) [
        | ok res ↦ ok (record res { failed = name_of i ∷ res.failed })
        | err e' ↦ err e'
      ]
      else err e

  abbrev pub all_shards : List ℕ
  all_shards = range_from 0 c.shard_count

  unfoldable pub finish_fan_out : {A : Type 0} → FanOutResult A → World P → World P
  finish_fan_out res w =
      let t = w.shards.totals in
      annotate_fan_out (map name_of all_shards) res.failed (record w {
        shards = record w.shards {
          totals = record t {
            fan_out = t.fan_out + 1;
            partial_fan_out = elim res.failed [
              | [] ↦ t.partial_fan_out
              | _ ∷ _ ↦ t.partial_fan_out + 1
            ];
          };
        };
      })

  unfoldable pub fan_out :
      {A : Type 0} → Query P.prisma.Db A → Bool → Consistency → Action P (FanOutResult A)
  fan_out query allow_partial consistency w =
      let (settled, w') = settle_all query consistency all_shards w in
      elim (gather allow_partial settled) [
        | ok res ↦ (ok res, finish_fan_out res w')
        | err e ↦ (err e, w')
      ]

  abbrev pub flatten_parts : {A : Type 0} → List (FanOutPart (List A)) → List A
  flatten_parts [] = []
  flatten_parts (p ∷ ps) = p.result ++ flatten_parts ps

  unfoldable pub fan_out_list :
      {A : Type 0} → Query P.prisma.Db (List A) → Bool → Consistency → Action P (List A)
  fan_out_list query allow_partial consistency = do
    res ← fan_out query allow_partial consistency
    pure (flatten_parts res.parts)

  -- `getState().shards[i].buckets`
  unfoldable pub buckets_per_shard : List ℕ
  buckets_per_shard = map (λ i. length (keep (λ s. s == i) c.bucket_map)) all_shards

  -- The callback of `checkHealth` for one shard.
  unfoldable pub check_shard : ℕ → World P → World P
  check_shard index w =
      let (r, w') = on_shard index P.prisma.select_one (plain []) w in
      elim r [
        | ok _ ↦ mark_shard_up index w'
        | err e ↦ if is_connection_error e then mark_shard_down index e w' else record w' {
          shards = record w'.shards {
            health =
                adjust (λ h. record h { last_error = some (short_error e) }) w'.shards.health index;
          };
        }
      ]

  unfoldable pub check_shards : List ℕ → World P → World P
  unfolding check_shard
  check_shards [] w = w
  check_shards (i ∷ is) w = check_shards is (check_shard i w)

  unfoldable pub check_health : World P → World P
  unfolding check_shards
  check_health w = if c.sharded then check_shards all_shards w else w
