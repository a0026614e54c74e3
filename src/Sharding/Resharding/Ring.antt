-- ===== src/Sharding/Resharding/Ring.antt =====
-- The binary search of the ring, src/sharding/resharding.ts.
use booking_hotel.Prelude.{
  refl, ◌==◌, if◌then◌else◌, All-get_or, leb, ℕ, zero, suc, ◌+◌, ◌-◌, ◌/◌, ◌≤◌, ◌<◌, ◌≡◌, ltb, List,
  [], ◌∷◌, length, get_or, arith, Bool-cases, inl, inr, All,
}
use booking_hotel.Sharding.Resharding.{ring_shard_of, Point, lower_bound, sort_points, insert_point}

abbrev pub position : List Point → ℕ → ℕ
position points i = (get_or points i (0, 0)).0

-- The positions of a ring never fall.
abbrev pub IsSorted : List Point → Type 0
IsSorted points = (i j : ℕ) → i ≤ j → j < length points → position points i ≤ position points j

-- The index `r` parts the ring: what lies before it is below the key, the rest is not.
abbrev pub Parts : List Point → ℕ → ℕ → Type 0
Parts points key r =
    (r ≤ length points)
    × ((i : ℕ) → i < r → position points i < key)
    × ((i : ℕ) → r ≤ i → i < length points → key ≤ position points i)

lower_bound-Parts :
    (points : List Point) (key fuel lo hi : ℕ)
    → IsSorted points
    → lo ≤ hi
    → hi ≤ length points
    → hi - lo ≤ fuel
    → ((i : ℕ) → i < lo → position points i < key)
    → ((i : ℕ) → hi ≤ i → i < length points → key ≤ position points i)
    → Parts points key (lower_bound points key fuel lo hi)
unfolding lower_bound
lower_bound-Parts points key zero lo hi sorted le top enough below above =
    (omega arith, below, λ i ge lt. above i (omega arith) lt)
lower_bound-Parts points key (suc fuel) lo hi sorted le top enough below above =
    let mid = (lo + hi) / 2 in
    elim (Bool-cases (ltb lo hi)) [
      | inr same ↦
          let q : hi ≤ lo = ground (arith, same) in
          rw (same, lower_bound) (omega arith, below, λ i ge lt. above i (omega arith) lt)
      | inl more ↦
          let lt : lo < hi = ground (arith, more) in
          let lo_mid : lo ≤ mid = omega arith in
          let mid_hi : mid < hi = omega arith in
          elim (Bool-cases (ltb (position points mid) key)) [
            | inl before ↦
                let b : position points mid < key = ground (arith, before) in
                rw (more, lower_bound)
                  (rw (before, lower_bound)
                    (lower_bound-Parts points key fuel (suc mid) hi sorted (omega arith) top
                      (omega arith)
                      (λ i h. omega (arith, b, sorted i mid (omega arith) (omega arith))) above))
            | inr after ↦
                let b : key ≤ position points mid = ground (arith, after) in
                rw (more, lower_bound)
                  (rw (after, lower_bound)
                    (lower_bound-Parts points key fuel lo mid sorted lo_mid (omega arith)
                      (omega arith) below (λ i h l. omega (arith, b, sorted mid i h l))))
          ]
    ]

-- Every point of the list lies at or after `n`.
abbrev pub AllAfter : ℕ → List Point → Type 0
AllAfter n ps = All (λ q. n ≤ q.0) ps

abbrev pub Ascending : List Point → Type 0
Ascending [] = Unit
Ascending (p ∷ ps) = AllAfter p.0 ps × Ascending ps

pub AllAfter-weaken : (m n : ℕ) (ps : List Point) → n ≤ m → AllAfter m ps → AllAfter n ps
AllAfter-weaken m n [] le h = tt
AllAfter-weaken m n (p ∷ ps) le (k, ks) = (omega arith, AllAfter-weaken m n ps le ks)

insert_point-AllAfter :
    (n : ℕ) (p : Point) (ps : List Point) → n ≤ p.0 → AllAfter n ps → AllAfter n (insert_point p ps)
unfolding insert_point
insert_point-AllAfter n p [] le h = (le, tt)
insert_point-AllAfter n p (q ∷ qs) le (k, ks) = elim (Bool-cases (leb p.0 q.0)) [
  | inl first ↦ rw (first, insert_point) (le, (k, ks))
  | inr later ↦ rw (later, insert_point) (k, insert_point-AllAfter n p qs le ks)
]

pub insert_point-Ascending :
    (p : Point) (ps : List Point) → Ascending ps → Ascending (insert_point p ps)
unfolding insert_point
insert_point-Ascending p [] h = (tt, tt)
insert_point-Ascending p (q ∷ qs) (k, ks) = elim (Bool-cases (leb p.0 q.0)) [
  | inl first ↦
      let le : p.0 ≤ q.0 = ground (arith, first) in
      rw (first, insert_point) ((le, AllAfter-weaken q.0 p.0 qs le k), (k, ks))
  | inr later ↦
      let le : q.0 ≤ p.0 = ground (arith, later) in
      rw (later, insert_point) (insert_point-AllAfter q.0 p qs le k, insert_point-Ascending p qs ks)
]

pub sort_points-Ascending : (ps : List Point) → Ascending (sort_points ps)
unfolding sort_points
sort_points-Ascending [] = tt
sort_points-Ascending (p ∷ ps) =
    insert_point-Ascending p (sort_points ps) (sort_points-Ascending ps)

Ascending-IsSorted : (ps : List Point) → Ascending ps → IsSorted ps
Ascending-IsSorted [] h i j le lt = elim lt [ ]
Ascending-IsSorted (p ∷ ps) (k, ks) zero zero le lt = omega arith
Ascending-IsSorted (p ∷ ps) (k, ks) zero (suc j) le lt =
    All-get_or (λ (q : Point). p.0 ≤ q.0) ps j (0, 0) k (omega arith)
Ascending-IsSorted (p ∷ ps) (k, ks) (suc i) zero le lt = absurd (omega arith)
Ascending-IsSorted (p ∷ ps) (k, ks) (suc i) (suc j) le lt =
    Ascending-IsSorted ps ks i j (omega arith) (omega arith)

-- On the sorted ring the binary search picks the shard of the first virtual node at or after the
-- key, and the first virtual node of all where every one lies before it.
pub ring_shard_of_lem :
    (ps : List Point) (key : ℕ)
    → let points = sort_points ps in
      (r : ℕ) × Parts points key r
      × (ring_shard_of points key ≡ (get_or points (if r == length points then 0 else r) (0, 0)).1)
ring_shard_of_lem ps key =
    let points = sort_points ps in
    (
      lower_bound points key (length points) 0 (length points),
      lower_bound-Parts points key (length points) 0 (length points)
          (Ascending-IsSorted points (sort_points-Ascending ps)) (omega arith) (omega arith)
          (omega arith) (λ i h. absurd (omega (arith, h))) (λ i h l. absurd (omega (arith, h, l))),
      unfold ring_shard_of in refl,
    )
