-- ===== src/Sharding/Resharding/Quota.antt =====
-- The quotas of the shards in a map that `rebalanceBuckets` (src/sharding/resharding.ts) has made.
use booking_hotel.Sharding.Resharding.Taking.{Taking-start, take_spare-Taking}
use mathlib.Core.Path.{subst}
use booking_hotel.Sharding.Resharding.Sums.{among-zero, sum_from, sum_from-add, sum_from-quota}
use booking_hotel.Sharding.Resharding.Settled.{
  settled_from, settled_from-nothing_spare, settled_from-given, one_if, Good,
}
use booking_hotel.Sharding.Resharding.{
  take_spare, give, give_all, quota, owned_by, rebalance_buckets,
}
use booking_hotel.Sharding.Key.{buckets}
use booking_hotel.Prelude.{
  if◌then◌else◌, length-set, sym, ◌∙◌, ℕ, zero, suc, ◌+◌, ◌-◌, ◌<◌, ◌≤◌, ◌≡◌, ◌≢◌, ◌==◌, List, [],
  ◌∷◌, All, length, set, map, get_or, range_from, refl, arith, Bool-cases, inl, inr,
}

-- What giving `missing` spare buckets to a shard has done.
record Given (shard missing : ℕ) (m spare m' spare' : List ℕ) : Type 0 where
  pub settled :
      (t : ℕ)
      → settled_from 0 m' spare' t ≡ settled_from 0 m spare t + (if shard == t then missing else 0)
  pub left : length spare' + missing ≡ length spare
  pub good : Good (length m') spare'
  pub size : length m' ≡ length m

one_more :
    (s t missing : ℕ)
    → one_if (s == t) + (if s == t then missing else 0) ≡ (if s == t then suc missing else 0)
one_more s t missing = ground arith

give-Given :
    (shard missing : ℕ) (m spare : List ℕ)
    → missing ≤ length spare
    → Good (length m) spare
    → Given shard missing m spare (give shard missing m spare).0 (give shard missing m spare).1
unfolding give
give-Given shard zero m spare le good = record {
  settled = λ t. ground arith;
  left = omega arith;
  good = good;
  size = refl;
}
give-Given shard (suc missing) m [] le good = absurd (omega (arith, le))
give-Given shard (suc missing) m (b ∷ spare) le (b_in, free, good) =
    let same = length-set m b shard in
    let rest =
      give-Given shard missing (set m b shard) spare (omega arith)
        (subst (λ n. Good n spare) (sym same) good) in
    record {
      settled = λ t.
          let step = settled_from-given b b 0 m spare shard t (omega arith) b_in free in
          let later = rest.settled t in omega (arith, step, later, one_more shard t missing);
      left = let l = rest.left in omega (arith, l);
      good = rest.good;
      size = rest.size ∙ same;
    }

if_same : (s n : ℕ) → (if s == s then n else 0) ≡ n
if_same s n = ground arith

if_apart : (s u n : ℕ) → s ≢ u → (if s == u then n else 0) ≡ 0
if_apart s u n ne = ground (arith, ne)

no_length : (xs : List ℕ) → length xs ≡ 0 → xs ≡ []
no_length [] e = refl
no_length (x ∷ xs) e = absurd (omega (arith, e))

module _ (to : ℕ) (owned : List ℕ) (under : (t : ℕ) → t < to → get_or owned t 0 ≤ quota to t) where
  give_all-quotas :
      (s k : ℕ) (m spare : List ℕ)
      → s + k ≡ to
      → Good (length m) spare
      → ((t : ℕ) → t < s → settled_from 0 m spare t ≡ quota to t)
      → ((t : ℕ) → s ≤ t → t < to → settled_from 0 m spare t ≡ get_or owned t 0)
      → sum_from s k (λ t. quota to t - get_or owned t 0) ≡ length spare
      → (t : ℕ) → t < to
      → owned_by (give_all to (range_from s k) owned m spare) t ≡ quota to t
  unfolding give_all
  give_all-quotas s zero m spare e good full open_ones lack t lt =
      let none_left : spare ≡ [] = no_length spare (omega (arith, lack)) in
      let at : settled_from 0 m [] t ≡ quota to t =
        subst (λ l. settled_from 0 m l t ≡ quota to t) none_left (full t (omega arith)) in
      sym (settled_from-nothing_spare 0 m t) ∙ at
  give_all-quotas s (suc k) m spare e good full open_ones lack t lt =
      let missing = quota to s - get_or owned s 0 in
      let given = give-Given s missing m spare (omega (arith, lack)) good in
      let m' = (give s missing m spare).0 in
      let spare' = (give s missing m spare).1 in
      let left = given.left in
      let here : settled_from 0 m' spare' s ≡ quota to s = omega (
        arith,
        given.settled s,
        if_same s missing,
        open_ones s (omega arith) (omega arith),
        under s (omega arith),
      ) in
      give_all-quotas (suc s) k m' spare' (omega arith) given.good
        (λ u u_lt. elim (Bool-cases (s == u)) [
          | inl same ↦
              subst (λ v. settled_from 0 m' spare' v ≡ quota to v) (ground (arith, same)) here
          | inr other ↦ omega (
            arith,
            given.settled u,
            if_apart s u missing (λ q. absurd (ground (arith, other, q))),
            full u (ground (arith, other, u_lt)),
          )
        ])
        (λ u le u_lt. omega (
          arith,
          given.settled u,
          if_apart s u missing (λ q. absurd (omega (arith, q, le))),
          open_ones u (omega arith) u_lt,
        ))
        (omega (arith, lack, left)) t lt

-- Where the old map has 64 buckets on shards among the new number of shards, every shard of the new
-- map has exactly its quota: 64 divided by the number of shards, and one more for the first shards
-- where the division leaves a rest.
pub rebalance_buckets-quota :
    (m : List ℕ) (to t : ℕ)
    → length m ≡ buckets
    → All (λ s. s < to) m
    → t < to
    → owned_by (rebalance_buckets m to) t ≡ quota to t
rebalance_buckets-quota m to t size inside lt =
    let first = map (owned_by m) (range_from 0 to) in
    let owned = (take_spare to m (length m) first []).0 in
    let spare = (take_spare to m (length m) first []).1 in
    let taken =
      take_spare-Taking to m size inside (length m) first [] (omega arith)
        (Taking-start to m size inside) in
    let under = λ (u : ℕ) (u_lt : u < to).
      let fits : get_or owned u 0 ≤ quota to u =
        omega (arith, taken.under u u_lt, among-zero m u) in
      fits in
    let all =
      sum_from-add 0 to (λ u. quota to u - get_or owned u 0) (settled_from 0 m spare) (quota to)
        (λ u le u_lt. omega (arith, taken.counted u (omega arith), under u (omega arith))) in
    let lack : sum_from 0 to (λ u. quota to u - get_or owned u 0) ≡ length spare =
      omega (arith, all, taken.whole, sum_from-quota to (omega arith)) in
    unfold rebalance_buckets in
    subst
      (λ n.
        owned_by
          (give_all to (range_from 0 to) (take_spare to m n first []).0 m
            (take_spare to m n first []).1)
          t
        ≡ quota to t)
      size
      (give_all-quotas to owned under 0 to m spare (omega arith)
        (subst (λ n. Good n spare) (sym size) taken.good) (λ u u_lt. absurd (omega (arith, u_lt)))
        (λ u le u_lt. sym (taken.counted u u_lt)) lack t lt)
