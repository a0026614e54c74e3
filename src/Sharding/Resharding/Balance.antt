-- ===== src/Sharding/Resharding/Balance.antt =====
-- What the new bucket map and the simulation keep.
use booking_hotel.Prelude.{
  ℕ, zero, suc, ◌+◌, ◌-◌, ◌<◌, ◌≡◌, ◌∙◌, List, [], ◌∷◌, length, set, adjust, get_or, All, All-set,
  length-set, length-adjust, range_from, map, arith, refl,
}
use booking_hotel.Sharding.Key.{buckets}
use booking_hotel.Sharding.Resharding.{
  give, give_all, take_spare, rebalance_buckets, count_loads, quota, owned_by,
}

give-All :
    (to shard missing : ℕ) (m spare : List ℕ)
    → shard < to
    → All (λ s. s < to) m
    → All (λ s. s < to) (give shard missing m spare).0
      × (length (give shard missing m spare).0 ≡ length m)
unfolding give
give-All to shard zero m spare lt h = (h, refl)
give-All to shard (suc missing) m [] lt h = give-All to shard missing m [] lt h
give-All to shard (suc missing) m (b ∷ spare) lt h =
    let (all, size) =
      give-All to shard missing (set m b shard) spare lt (All-set (λ s. s < to) m b shard h lt) in
    (all, size ∙ length-set m b shard)

give_all-All :
    (to start n : ℕ) (owned m spare : List ℕ)
    → start + n ≡ to
    → All (λ s. s < to) m
    → All (λ s. s < to) (give_all to (range_from start n) owned m spare)
      × (length (give_all to (range_from start n) owned m spare) ≡ length m)
unfolding give_all
give_all-All to start zero owned m spare e h = (h, refl)
give_all-All to start (suc n) owned m spare e h =
    let missing = quota to start - get_or owned start 0 in
    let (all, size) = give-All to start missing m spare (omega arith) h in
    let (m', spare') = give start missing m spare in
    let (all', size') = give_all-All to (suc start) n owned m' spare' (omega arith) all in
    (all', size' ∙ size)

-- Where the shards of the old map are among the new number of shards, so are those of the new map,
-- which has as many buckets.
pub rebalance_buckets-lt :
    (m : List ℕ) (to : ℕ)
    → All (λ s. s < to) m
    → All (λ s. s < to) (rebalance_buckets m to) × (length (rebalance_buckets m to) ≡ length m)
unfolding rebalance_buckets
rebalance_buckets-lt m to h =
    let (owned, spare) = take_spare to m buckets (map (owned_by m) (range_from 0 to)) [] in
    give_all-All to 0 to owned m spare (omega arith) h

abbrev pub total : List ℕ → ℕ
total [] = 0
total (n ∷ ns) = n + total ns

total-adjust :
    (load : List ℕ) (i : ℕ) → i < length load → total (adjust suc load i) ≡ suc (total load)
total-adjust [] i lt = elim lt [ ]
total-adjust (n ∷ ns) zero lt = omega arith
total-adjust (n ∷ ns) (suc i) lt = omega (arith, total-adjust ns i (omega arith))

-- The simulation counts every key once, if the placement names only shards that it counts for.
pub count_loads-total :
    (target : ℕ → ℕ) (hashes load : List ℕ)
    → ((h : ℕ) → target h < length load)
    → total (count_loads target hashes load) ≡ length hashes + total load
unfolding count_loads
count_loads-total target [] load inside = omega arith
count_loads-total target (h ∷ hashes) load inside =
    let load' = adjust suc load (target h) in
    let size = length-adjust suc load (target h) in
    let rest = count_loads-total target hashes load' (λ k. omega (arith, size, inside k)) in
    omega (arith, rest, total-adjust load (target h) (inside h))
