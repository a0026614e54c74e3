-- ===== src/Sharding/Resharding/Growth.antt =====
-- The ring of consistent hashing (src/sharding/resharding.ts) before and after a shard joins it.
use booking_hotel.Prelude.{
  ℕ, zero, suc, ◌+◌, ◌<◌, ◌≤◌, ◌≡◌, ◌⊎◌, inl, inr, ◌==◌, leb, not, Bool, true, false, Option, none,
  some, List, [], ◌∷◌, ◌++◌, JsString, keep, map, length, get_or, range_from, if◌then◌else◌, refl,
  sym, ap, ◌∙◌, arith, Bool-cases,
}
use booking_hotel.Sharding.Resharding.{
  Point, insert_point, sort_points, point_of, points_from, hash_ring, ring_shard_of,
}
use booking_hotel.Sharding.Resharding.Ring.{
  Parts, Ascending, AllAfter, AllAfter-weaken, sort_points-Ascending, ring_shard_of_lem,
}

-- The shard of the first virtual node at or after the key, going round at the end.
abbrev at_or_after : ℕ → List Point → Option ℕ
at_or_after key [] = none
at_or_after key (q ∷ qs) = if leb key q.0 then some q.1 else at_or_after key qs

abbrev head_shard : List Point → ℕ
head_shard [] = 0
head_shard (q ∷ qs) = q.1

abbrev or_head : Option ℕ → ℕ → ℕ
or_head none s = s
or_head (some t) s = t

abbrev clockwise : ℕ → List Point → ℕ
clockwise key points = or_head (at_or_after key points) (head_shard points)

Parts-tail : (q : Point) (qs : List Point) (key r : ℕ) → Parts (q ∷ qs) key (suc r) → Parts qs key r
Parts-tail q qs key r (le, below, above) = (
  omega arith,
  λ i lt. below (suc i) (omega arith),
  λ i ge lt. above (suc i) (omega arith) (omega arith),
)

Parts-found :
    (points : List Point) (key r : ℕ)
    → Parts points key r
    → r < length points
    → at_or_after key points ≡ some (get_or points r (0, 0)).1
Parts-found [] key r h lt = elim lt [ ]
Parts-found (q ∷ qs) key zero (le, below, above) lt =
    let first = above 0 (omega arith) (omega arith) in ground (arith, first)
Parts-found (q ∷ qs) key (suc r) (le, below, above) lt =
    let before = below 0 (omega arith) in
    let rest = Parts-found qs key r (Parts-tail q qs key r (le, below, above)) (omega arith) in
    ground (arith, before, rest)

Parts-none :
    (points : List Point) (key r : ℕ)
    → Parts points key r
    → r ≡ length points
    → at_or_after key points ≡ none
Parts-none [] key r h e = refl
Parts-none (q ∷ qs) key zero h e = absurd (omega arith)
Parts-none (q ∷ qs) key (suc r) (le, below, above) e =
    let before = below 0 (omega arith) in
    let rest = Parts-none qs key r (Parts-tail q qs key r (le, below, above)) (omega arith) in
    ground (arith, before, rest)

ring_shard_of-clockwise :
    (ps : List Point) (key : ℕ)
    → ring_shard_of (sort_points ps) key ≡ clockwise key (sort_points ps)
ring_shard_of-clockwise ps key =
    let points = sort_points ps in
    let (r, parts, eq) = ring_shard_of_lem ps key in
    elim (Bool-cases (r == length points)) [
      | inl end ↦
          let past = Parts-none points key r parts (ground (arith, end)) in
          let head : (get_or points 0 (0, 0)).1 ≡ head_shard points = get_or-head points in
          eq ∙ rw (end, past) head
      | inr inside ↦
          let (le, _, _) = parts in
          let found = Parts-found points key r parts (ground (arith, inside, le)) in
          eq ∙ rw (inside, found) refl
    ]
  where
    get_or-head : (points : List Point) → (get_or points 0 (0, 0)).1 ≡ head_shard points
    get_or-head [] = refl
    get_or-head (q ∷ qs) = refl

module _ (n : ℕ) where
  -- A virtual node of another shard than the new one.
  abbrev old : Point → Bool
  old p = not (p.1 == n)

  insert_point-first : (p : Point) (ps : List Point) → AllAfter p.0 ps → insert_point p ps ≡ p ∷ ps
  unfolding insert_point
  insert_point-first p [] h = refl
  insert_point-first p (q ∷ qs) (h, hs) = ground (arith, h)

  keep-AllAfter : (m : ℕ) (ps : List Point) → AllAfter m ps → AllAfter m (keep old ps)
  keep-AllAfter m [] h = tt
  keep-AllAfter m (q ∷ qs) (h, hs) = elim (Bool-cases (old q)) [
    | inl e ↦ rw e (h, keep-AllAfter m qs hs)
    | inr e ↦ rw e (keep-AllAfter m qs hs)
  ]

  keep-insert_new :
      (p : Point) (ps : List Point) → old p ≡ false → keep old (insert_point p ps) ≡ keep old ps
  unfolding insert_point
  keep-insert_new p [] e = rw e refl
  keep-insert_new p (q ∷ qs) e = elim (Bool-cases (leb p.0 q.0)) [
    | inl first ↦ rw (first, e) refl
    | inr later ↦ rw (later, keep-insert_new p qs e) refl
  ]

  keep-insert_old :
      (p : Point) (ps : List Point)
      → old p ≡ true
      → Ascending ps
      → keep old (insert_point p ps) ≡ insert_point p (keep old ps)
  unfolding insert_point
  keep-insert_old p [] e h = rw e refl
  keep-insert_old p (q ∷ qs) e (h, hs) = elim (Bool-cases (leb p.0 q.0)) [
    | inl first ↦
        let le : p.0 ≤ q.0 = ground (arith, first) in
        let after : AllAfter p.0 (q ∷ qs) = (le, AllAfter-weaken q.0 p.0 qs le h) in
        rw (first, e)
          (sym (insert_point-first p (keep old (q ∷ qs)) (keep-AllAfter p.0 (q ∷ qs) after)))
    | inr later ↦ elim (Bool-cases (old q)) [
      | inl kept ↦ rw (later, kept, keep-insert_old p qs e hs) (rw later refl)
      | inr gone ↦ rw (later, gone) (keep-insert_old p qs e hs)
    ]
  ]

  keep-sort_points : (ps : List Point) → keep old (sort_points ps) ≡ sort_points (keep old ps)
  unfolding sort_points
  keep-sort_points [] = refl
  keep-sort_points (p ∷ ps) = elim (Bool-cases (old p)) [
    | inl e ↦ rw e (
        keep-insert_old p (sort_points ps) e (sort_points-Ascending ps)
        ∙ ap (insert_point p) (keep-sort_points ps))
    | inr e ↦ rw e (keep-insert_new p (sort_points ps) e ∙ keep-sort_points ps)
  ]

  -- Without the new shard's virtual nodes, the search finds what it found or the new shard.
  at_or_after-keep :
      (key : ℕ) (ps : List Point)
      → (at_or_after key ps ≡ at_or_after key (keep old ps)) ⊎ (at_or_after key ps ≡ some n)
  at_or_after-keep key [] = inl refl
  at_or_after-keep key (q ∷ qs) = let rest = at_or_after-keep key qs in ground (arith, rest)

  head_shard-keep :
      (ps : List Point) → (head_shard ps ≡ head_shard (keep old ps)) ⊎ (head_shard ps ≡ n)
  head_shard-keep [] = inl refl
  head_shard-keep (q ∷ qs) = ground arith

  clockwise-keep :
      (key : ℕ) (ps : List Point)
      → (clockwise key ps ≡ clockwise key (keep old ps)) ⊎ (clockwise key ps ≡ n)
  clockwise-keep key ps =
      let found = at_or_after-keep key ps in
      let head = head_shard-keep ps in ground (arith, found, head)

  module _ (ring_position : JsString → ℕ) (decimal : ℕ → JsString) (vnodes : ℕ) where
    keep-old_nodes :
        (shard : ℕ) (vs : List ℕ) (rest : List Point)
        → shard < n
        → keep old (map (point_of ring_position decimal shard) vs ++ rest)
          ≡ map (point_of ring_position decimal shard) vs ++ keep old rest
    unfolding point_of
    keep-old_nodes shard [] rest lt = refl
    keep-old_nodes shard (v ∷ vs) rest lt =
        let other : not (shard == n) ≡ true = ground (arith, lt) in
        rw (other, keep-old_nodes shard vs rest lt) refl

    keep-new_nodes : (vs : List ℕ) → keep old (map (point_of ring_position decimal n) vs ++ []) ≡ []
    unfolding point_of
    keep-new_nodes [] = refl
    keep-new_nodes (v ∷ vs) =
        let new : not (n == n) ≡ false = ground arith in rw new (keep-new_nodes vs)

    keep-points_from :
        (s k : ℕ)
        → s + k ≡ n
        → keep old (points_from ring_position decimal (range_from s (suc k)) vnodes)
          ≡ points_from ring_position decimal (range_from s k) vnodes
    unfolding points_from
    keep-points_from s zero e =
        let q : s ≡ n = omega (arith, e) in rw q (keep-new_nodes (range_from 0 vnodes))
    keep-points_from s (suc k) e =
        keep-old_nodes s (range_from 0 vnodes)
          (points_from ring_position decimal (range_from (suc s) (suc k)) vnodes) (omega arith)
        ∙ ap (λ (l : List Point). map (point_of ring_position decimal s) (range_from 0 vnodes) ++ l)
            (keep-points_from (suc s) k (omega arith))

-- Growing the ring of consistent hashing from `n` shards to `n + 1` moves a key to the new shard or
-- leaves it where it was, for any positions of the virtual nodes, also where two coincide.
pub hash_ring-grows :
    (ring_position : JsString → ℕ) (decimal : ℕ → JsString) (n vnodes key : ℕ)
    → let before = ring_shard_of (hash_ring ring_position decimal n vnodes) key in
      let after = ring_shard_of (hash_ring ring_position decimal (suc n) vnodes) key in
      (after ≡ before) ⊎ (after ≡ n)
hash_ring-grows ring_position decimal n vnodes key =
    let few = points_from ring_position decimal (range_from 0 n) vnodes in
    let many = points_from ring_position decimal (range_from 0 (suc n)) vnodes in
    let kept : keep (old n) (sort_points many) ≡ sort_points few =
      keep-sort_points n many
      ∙ ap sort_points (keep-points_from n ring_position decimal vnodes 0 n (omega arith)) in
    let before = ring_shard_of-clockwise few key in
    let after = ring_shard_of-clockwise many key in
    elim (clockwise-keep n key (sort_points many)) [
      | inl same ↦ inl (unfold hash_ring in (after ∙ same ∙ ap (clockwise key) kept ∙ sym before))
      | inr new ↦ inr (unfold hash_ring in (after ∙ new))
    ]
