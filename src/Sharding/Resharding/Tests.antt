-- ===== src/Sharding/Resharding/Tests.antt =====
-- Maps and rings of a few shards.
use booking_hotel.Sharding.Resharding.Growth.{hash_ring-grows}
use booking_hotel.Sharding.Resharding.Quota.{rebalance_buckets-quota}
use booking_hotel.Prelude.{
  zero, suc, ◌⊎◌, replicate, ℕ, ◌≡◌, ◌<◌, List, [], ◌∷◌, All, length, get_or, map, range_from, refl,
  arith, if◌then◌else◌, ◌==◌,
}
use booking_hotel.Sharding.BucketMap.{round_robin}
use booking_hotel.Sharding.Resharding.{
  hash_ring, Point, sort_points, ring_shard_of, rebalance_buckets, take_spare, quota, owned_by,
  give, give_all,
}
use booking_hotel.Sharding.Resharding.Ring.{Parts, ring_shard_of_lem}

four_quotas :
    map (owned_by (rebalance_buckets (round_robin 2) 4)) (range_from 0 4) ≡ 16 ∷ 16 ∷ 16 ∷ 16 ∷ []
unfolding owned_by rebalance_buckets round_robin take_spare quota give give_all
four_quotas = refl

abbrev nodes : List Point
nodes = (30, 1) ∷ (10, 0) ∷ (20, 1) ∷ []

ring_shard_of_lem_example :
    let points = sort_points nodes in
    (r : ℕ) × Parts points 15 r
    × (ring_shard_of points 15 ≡ (get_or points (if r == length points then 0 else r) (0, 0)).1)
ring_shard_of_lem_example = ring_shard_of_lem nodes 15

All-replicate : {A : Type 0} (Q : A → Type 0) (n : ℕ) (a : A) → Q a → All Q (replicate n a)
All-replicate Q zero a h = tt
All-replicate Q (suc n) a h = (h, All-replicate Q n a h)

-- From one shard to three, which share 64 buckets as 22, 21 and 21.
rebalance_buckets-quota_example : owned_by (rebalance_buckets (replicate 64 0) 3) 2 ≡ quota 3 2
rebalance_buckets-quota_example =
    rebalance_buckets-quota (replicate 64 0) 3 2 refl
      (All-replicate (λ s. s < 3) 64 0 (omega arith)) (omega arith)

hash_ring-grows_example :
    let before = ring_shard_of (hash_ring length (λ n. n ∷ []) 2 2) 9 in
    let after = ring_shard_of (hash_ring length (λ n. n ∷ []) 3 2) 9 in
    (after ≡ before) ⊎ (after ≡ 2)
hash_ring-grows_example = hash_ring-grows length (λ n. n ∷ []) 2 2 9
