-- ===== src/Sharding/Resharding.antt =====
-- src/sharding/resharding.ts: the ring of consistent hashing, the new map of a growing number of
-- shards, the simulation and the balance of the ring. MD5 is an argument, and so are the hashes of
-- the random keys. A share is a whole number of tenths of a percent, rounded half up without the
-- error of a floating-point division.
pub mod Ring
pub mod Balance
pub mod Growth
pub mod Settled
pub mod Sums
pub mod Taking
pub mod Quota
mod Tests
use booking_hotel.Prelude.{
  ℕ, zero, suc, ◌+◌, ◌-◌, ◌*◌, ◌/◌, ◌%◌, ltb, leb, ◌==◌, Bool, true, false, Option, none, some,
  List, [], ◌∷◌, ◌++◌, JsString, js, map, length, get_or, set, adjust, keep, replicate, range_from,
  foldl, if◌then◌else◌,
}
use booking_hotel.Sharding.Key.{buckets}
use booking_hotel.Sharding.BucketMap.{round_robin}

pub data Scheme : Type 0 where
  modulo virtual_buckets consistent_hash : Scheme

-- A virtual node: its position on the ring and its shard.
abbrev pub Point : Type 0
Point = ℕ × ℕ

-- `points.sort((a, b) => a.hash - b.hash)`, which is stable.
unfoldable pub insert_point : Point → List Point → List Point
insert_point p [] = p ∷ []
insert_point p (q ∷ qs) =
    let rest = insert_point p qs in if leb p.0 q.0 then p ∷ q ∷ qs else q ∷ rest

unfoldable pub sort_points : List Point → List Point
sort_points [] = []
sort_points (p ∷ ps) = insert_point p (sort_points ps)

-- The loop of the binary search, on fuel: each round leaves at most half of the interval.
unfoldable pub lower_bound : List Point → ℕ → ℕ → ℕ → ℕ → ℕ
lower_bound points key zero lo hi = lo
lower_bound points key (suc fuel) lo hi = elim (ltb lo hi) [
  | false ↦ lo
  | true ↦ elim (ltb (get_or points ((lo + hi) / 2) (0, 0)).0 key) [
    | true ↦ lower_bound points key fuel (suc ((lo + hi) / 2)) hi
    | false ↦ lower_bound points key fuel lo ((lo + hi) / 2)
  ]
]

-- `HashRing.shardOf`
unfoldable pub ring_shard_of : List Point → ℕ → ℕ
ring_shard_of points key =
    let lo = lower_bound points key (length points) 0 (length points) in
    (get_or points (if lo == length points then 0 else lo) (0, 0)).1

module _ (ring_position : JsString → ℕ) (decimal : ℕ → JsString) where
  unfoldable pub point_of : ℕ → ℕ → Point
  unfolding js
  point_of shard v =
      (ring_position (js "shard-" ++ (decimal shard ++ (js "#" ++ decimal v))), shard)

  unfoldable pub points_from : List ℕ → ℕ → List Point
  points_from [] vnodes = []
  points_from (shard ∷ shards) vnodes =
      map (point_of shard) (range_from 0 vnodes) ++ points_from shards vnodes

  -- `new HashRing(shardCount, vnodes)`
  unfoldable pub hash_ring : ℕ → ℕ → List Point
  hash_ring shard_count vnodes = sort_points (points_from (range_from 0 shard_count) vnodes)

unfoldable pub quota : ℕ → ℕ → ℕ
quota to shard = buckets / to + (if ltb shard (buckets % to) then 1 else 0)

unfoldable pub owned_by : List ℕ → ℕ → ℕ
owned_by m shard = length (keep (λ s. s == shard) m)

-- The first loop, on the buckets from the last to the first: what the shards own, and the stack of
-- spare buckets. A shard that is gone owns `undefined`, which is not greater than its quota.
unfoldable pub take_spare : ℕ → List ℕ → ℕ → List ℕ → List ℕ → List ℕ × List ℕ
unfolding quota
take_spare to m zero owned spare = (owned, spare)
take_spare to m (suc bucket) owned spare =
    let shard = get_or m bucket 0 in
    elim (ltb (quota to shard) (get_or owned shard 0)) [
      | true ↦ take_spare to m bucket (adjust (λ n. n - 1) owned shard) (bucket ∷ spare)
      | false ↦ take_spare to m bucket owned spare
    ]

-- The `while` loop for one shard, on the buckets that it lacks; `pop` of an empty stack changes no
-- bucket.
unfoldable pub give : ℕ → ℕ → List ℕ → List ℕ → List ℕ × List ℕ
give shard zero m spare = (m, spare)
give shard (suc missing) m [] = give shard missing m []
give shard (suc missing) m (bucket ∷ spare) = give shard missing (set m bucket shard) spare

unfoldable pub give_all : ℕ → List ℕ → List ℕ → List ℕ → List ℕ → List ℕ
unfolding quota
give_all to [] owned m spare = m
give_all to (shard ∷ shards) owned m spare =
    let (m', spare') = give shard (quota to shard - get_or owned shard 0) m spare in
    give_all to shards owned m' spare'

unfoldable pub rebalance_buckets : List ℕ → ℕ → List ℕ
rebalance_buckets m to =
    let (owned, spare) = take_spare to m buckets (map (owned_by m) (range_from 0 to)) [] in
    give_all to (range_from 0 to) owned m spare

-- `pct` in tenths of a percent, and the ratio in hundredths.
unfoldable pub per_mille : ℕ → ℕ → ℕ
per_mille part total = (2 * (part * 1000) + total) / (2 * total)

unfoldable pub max_to_avg : List ℕ → ℕ → ℕ → ℕ
max_to_avg load key_count to =
    let most = foldl (λ (a b : ℕ). if ltb a b then b else a) 0 load in
    (2 * (most * to * 100) + key_count) / (2 * key_count)

-- The counts of one pass over the keys.
unfoldable pub count_loads : (ℕ → ℕ) → List ℕ → List ℕ → List ℕ
count_loads target [] load = load
count_loads target (h ∷ hashes) load = count_loads target hashes (adjust suc load (target h))

unfoldable pub count_moved : (ℕ → ℕ) → (ℕ → ℕ) → List ℕ → ℕ
count_moved before after [] = 0
count_moved before after (h ∷ hashes) =
    let rest = count_moved before after hashes in if before h == after h then rest else suc rest

pub record BalanceRow : Type 0 where
  pub vnodes : ℕ
  pub max_to_avg : ℕ
  pub load : List ℕ

pub record ReshardingRow : Type 0 where
  pub scheme : Scheme
  pub from : ℕ
  pub to : ℕ
  pub moved : ℕ
  pub ideal : ℕ
  pub max_to_avg : ℕ
  pub load : List ℕ

module _ (ring_position : JsString → ℕ) (decimal : ℕ → JsString) (vnodes : ℕ) where
  -- `placement(scheme, shardCount, vnodes, previousMap)`
  unfoldable pub placement : Scheme → ℕ → Option (List ℕ) → ℕ → ℕ
  placement modulo shard_count previous hash = hash % shard_count
  placement virtual_buckets shard_count none hash =
      get_or (round_robin shard_count) (hash % buckets) 0
  placement virtual_buckets shard_count (some m) hash =
      get_or (rebalance_buckets m shard_count) (hash % buckets) 0
  placement consistent_hash shard_count previous hash =
      ring_shard_of (hash_ring ring_position decimal shard_count vnodes) hash

  -- `(before as { map?: number[] }).map`
  abbrev pub previous_map : Scheme → ℕ → Option (List ℕ)
  previous_map virtual_buckets from = some (round_robin from)
  previous_map _ from = none

  -- One row of `simulateResharding`.
  unfoldable pub simulate : Scheme → ℕ → ℕ → List ℕ → ReshardingRow
  simulate scheme from to hashes =
      let before = placement scheme from none in
      let after = placement scheme to (previous_map scheme from) in
      let load = count_loads after hashes (replicate to 0) in
      record {
        scheme = scheme;
        from = from;
        to = to;
        moved = per_mille (count_moved before after hashes) (length hashes);
        ideal = per_mille (to - from) to;
        max_to_avg = max_to_avg load (length hashes) to;
        load = map (λ n. per_mille n (length hashes)) load;
      }

  unfoldable pub simulate_resharding : List (ℕ × ℕ) → List ℕ → List ReshardingRow
  simulate_resharding [] hashes = []
  simulate_resharding ((from, to) ∷ transitions) hashes =
      simulate modulo from to hashes
      ∷ simulate virtual_buckets from to hashes
      ∷ simulate consistent_hash from to hashes
      ∷ simulate_resharding transitions hashes

abbrev pub default_vnode_options : List ℕ
default_vnode_options = 1 ∷ 16 ∷ 128 ∷ 512 ∷ []

-- `ringBalance`: the hashes of the random keys and MD5 are arguments, as for the simulation.
module _ (ring_position : JsString → ℕ) (decimal : ℕ → JsString) where
  unfoldable pub balance_row : ℕ → List ℕ → ℕ → BalanceRow
  balance_row shard_count hashes vnodes =
      let ring = hash_ring ring_position decimal shard_count vnodes in
      let load = count_loads (ring_shard_of ring) hashes (replicate shard_count 0) in
      record {
        vnodes = vnodes;
        max_to_avg = max_to_avg load (length hashes) shard_count;
        load = map (λ n. per_mille n (length hashes)) load;
      }

  unfoldable pub ring_balance : ℕ → List ℕ → List ℕ → List BalanceRow
  ring_balance shard_count hashes vnode_options = map (balance_row shard_count hashes) vnode_options
