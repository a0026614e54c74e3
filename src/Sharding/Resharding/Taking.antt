-- ===== src/Sharding/Resharding/Taking.antt =====
-- The first loop of `rebalanceBuckets` (src/sharding/resharding.ts), on the shards over their
-- quota.
use mathlib.Core.Path.{subst}
use booking_hotel.Sharding.Resharding.Sums.{
  get_or-lowered, sum_from-cong, among-suc, sum_from, sum_from-add, sum_from-one, sum_from-owned_by,
  among, among-all, get_or-map_range,
}
use booking_hotel.Sharding.Resharding.Settled.{
  settled_from, settled_from-nothing_spare, settled_from-taken, is_spare, one_if, Good,
}
use booking_hotel.Sharding.Resharding.{take_spare, quota, owned_by}
use booking_hotel.Sharding.Key.{buckets}
use booking_hotel.Prelude.{
  ap, sym, ◌∙◌, ℕ, zero, suc, ◌+◌, ◌-◌, ◌<◌, ◌≤◌, ◌≡◌, ◌==◌, ltb, false, List, [], ◌∷◌, All,
  All-get_or, adjust, length, map, get_or, range_from, refl, arith, Bool-cases, inl, inr,
}

-- The first loop with `k` buckets still to look at: what it has counted for the shards, that the
-- spare buckets lie among those looked at, and that a shard over its quota has buckets to come.
pub record Taking (to : ℕ) (m : List ℕ) (k : ℕ) (owned spare : List ℕ) : Type 0 where
  pub counted : (t : ℕ) → t < to → get_or owned t 0 ≡ settled_from 0 m spare t
  pub good : Good buckets spare
  pub looked_at : (i : ℕ) → i < k → is_spare spare i ≡ false
  pub under : (t : ℕ) → t < to → get_or owned t 0 ≤ quota to t + among m k t
  pub whole : sum_from 0 to (settled_from 0 m spare) + length spare ≡ buckets

module _ (to : ℕ) (m : List ℕ) (size : length m ≡ buckets) (inside : All (λ s. s < to) m) where
  owned_at_first : (t : ℕ) → t < to → get_or (map (owned_by m) (range_from 0 to)) t 0 ≡ owned_by m t
  owned_at_first t lt =
      get_or-map_range (owned_by m) 0 to t lt ∙ ap (owned_by m) {x = 0 + t} {y = t} (omega arith)

  pub Taking-start : Taking to m (length m) (map (owned_by m) (range_from 0 to)) []
  Taking-start = record {
    counted = λ t lt. owned_at_first t lt ∙ sym (settled_from-nothing_spare 0 m t);
    good = tt;
    looked_at = λ i lt. refl;
    under = λ t lt. omega (arith, owned_at_first t lt, among-all m t);
    whole =
        let all =
          sum_from-cong 0 to (settled_from 0 m []) (owned_by m) (settled_from-nothing_spare 0 m) in
        omega (arith, all, sum_from-owned_by to m inside, size);
  }

  -- A bucket of a shard that is over its quota.
  Taking-more :
      (k : ℕ) (owned spare : List ℕ)
      → k < length m
      → Taking to m (suc k) owned spare
      → quota to (get_or m k 0) < get_or owned (get_or m k 0) 0
      → Taking to m k (adjust (λ n. n - 1) owned (get_or m k 0)) (k ∷ spare)
  Taking-more k owned spare lt h over =
      let x = get_or m k 0 in
      let x_in : x < to = All-get_or (λ s. s < to) m k 0 inside lt in
      let free = h.looked_at k (omega arith) in
      let taken = λ (t : ℕ). settled_from-taken k k 0 m spare t (omega arith) lt free in
      let less = λ (t : ℕ). get_or-lowered owned x t (omega (arith, over)) in
      record {
        counted = λ t t_in. omega (arith, h.counted t t_in, taken t, less t);
        good = (omega (arith, size, lt), free, h.good);
        looked_at = λ i i_lt.
            let rest = h.looked_at i (omega arith) in
            let ne : (k == i) ≡ false = ground (arith, i_lt) in rw ne rest;
        under = λ t t_in. omega (arith, h.under t t_in, less t, among-suc m k t);
        whole =
            let all =
              sum_from-add 0 to (settled_from 0 m (k ∷ spare)) (λ t. one_if (x == t))
                (settled_from 0 m spare) (λ t le t_lt. taken t) in
            omega (arith, all, sum_from-one 0 to x (omega arith) (omega (arith, x_in)), h.whole);
      }

  Taking-same :
      (k : ℕ) (owned spare : List ℕ)
      → Taking to m (suc k) owned spare
      → get_or owned (get_or m k 0) 0 ≤ quota to (get_or m k 0)
      → Taking to m k owned spare
  Taking-same k owned spare h fits = record {
    counted = h.counted;
    good = h.good;
    looked_at = λ i lt. h.looked_at i (omega arith);
    under = λ t t_in.
        let before = h.under t t_in in
        let step = among-suc m k t in
        elim (Bool-cases (get_or m k 0 == t)) [
          | inl same ↦
              let q : get_or m k 0 ≡ t = ground (arith, same) in
              let fits' : get_or owned t 0 ≤ quota to t =
                subst (λ s. get_or owned s 0 ≤ quota to s) q fits in
              omega (arith, fits')
          | inr other ↦
              let step' : among m (suc k) t ≡ 0 + among m k t = rw other at step in
              omega (arith, before, step')
        ];
    whole = h.whole;
  }

  pub take_spare-Taking :
      (k : ℕ) (owned spare : List ℕ)
      → k ≤ length m
      → Taking to m k owned spare
      → Taking to m 0 (take_spare to m k owned spare).0 (take_spare to m k owned spare).1
  unfolding take_spare quota
  take_spare-Taking zero owned spare le h = h
  take_spare-Taking (suc k) owned spare le h =
      let x = get_or m k 0 in
      elim (Bool-cases (ltb (quota to x) (get_or owned x 0))) [
        | inl over ↦
            rw (over, take_spare)
              (take_spare-Taking k (adjust (λ n. n - 1) owned x) (k ∷ spare) (omega arith)
                (Taking-more k owned spare (omega arith) h (ground (arith, over))))
        | inr fits ↦
            rw (fits, take_spare)
              (take_spare-Taking k owned spare (omega arith)
                (Taking-same k owned spare h (ground (arith, fits))))
      ]
