-- ===== src/Sharding/Router/Merge.antt =====
-- `fanOutList` of ShardRouter: the rows of the merged list.
use mathlib.Core.Path.{subst}
use booking_hotel.Prelude.{
  ℕ, zero, suc, ◌≡◌, ◌<◌, ◌≤◌, ◌+◌, ◌⊎◌, ◌↔◌, true, List, [], ◌∷◌, ◌++◌, map, range_from, arith,
  inl, inr, sym, ap, ◌∙◌,
}
use booking_hotel.Runtime.Errors.{Result, Result-cases, ok}
use booking_hotel.Runtime.Platform.{Platform, Query, In}
use booking_hotel.Runtime.World.{World, Config}
use booking_hotel.Database.Router.{Consistency}
use booking_hotel.Sharding.Router.{fan_out_list, flatten_parts}
use booking_hotel.Sharding.Router.Isolation.{answer_of}
use booking_hotel.Sharding.Router.FanOut.{parts_of, fan_out_partial}

module _ {A : Type 0} where
  In-append : (x : A) (xs ys : List A) → In x (xs ++ ys) → In x xs ⊎ In x ys
  In-append x [] ys h = inr h
  In-append x (y ∷ xs) ys (inl e) = inl (inl e)
  In-append x (y ∷ xs) ys (inr h) = elim (In-append x xs ys h) [
    | inl l ↦ inl (inr l)
    | inr r ↦ inr r
  ]

  In-left : (x : A) (xs ys : List A) → In x xs → In x (xs ++ ys)
  In-left x [] ys h = absurd h
  In-left x (y ∷ xs) ys (inl e) = inl e
  In-left x (y ∷ xs) ys (inr h) = inr (In-left x xs ys h)

  In-right : (x : A) (xs ys : List A) → In x ys → In x (xs ++ ys)
  In-right x [] ys h = h
  In-right x (y ∷ xs) ys h = inr (In-right x xs ys h)

module _ (P : Platform) (c : Config) {A : Type 0} where
  -- The rows of the answers of the shards from `start` on.
  abbrev rows : (ℕ → Result (List A)) → ℕ → ℕ → List A
  rows f start n = flatten_parts P c (parts_of P c (map (λ i. (i, f i)) (range_from start n)))

  -- A shard from `start` on whose answer holds the row.
  abbrev Source : (ℕ → Result (List A)) → ℕ → ℕ → A → Type 0
  Source f start n x =
      (k : ℕ) × (start ≤ k) × (k < start + n) × (a : List A) × (f k ≡ ok a) × In x a

  rows-Source :
      (f : ℕ → Result (List A)) (start n : ℕ) (x : A) → In x (rows f start n) → Source f start n x
  rows-Source f start zero x h = absurd h
  rows-Source f start (suc n) x h = elim (Result-cases (f start)) [
    | inl (a, e) ↦
        let h' : In x (a ++ rows f (suc start) n) = subst (In x) (ground (arith, e)) h in
        elim (In-append x a (rows f (suc start) n) h') [
          | inl here ↦ (start, omega arith, omega arith, a, e, here)
          | inr there ↦
              let (k, lo, hi, b, r, m) = rows-Source f (suc start) n x there in
              (k, omega (arith, lo), omega (arith, hi), b, r, m)
        ]
    | inr (y, e) ↦
        let h' : In x (rows f (suc start) n) = subst (In x) (ground (arith, e)) h in
        let (k, lo, hi, b, r, m) = rows-Source f (suc start) n x h' in
        (k, omega (arith, lo), omega (arith, hi), b, r, m)
  ]

  Source-rows :
      (f : ℕ → Result (List A)) (start n k : ℕ) (x : A) (a : List A)
      → k < n
      → f (start + k) ≡ ok a
      → In x a
      → In x (rows f start n)
  Source-rows f start zero k x a lt e m = elim lt [ ]
  Source-rows f start (suc n) zero x a lt e m =
      let here : f start ≡ ok a = ap f (omega arith) ∙ e in
      let eq : rows f start (suc n) ≡ a ++ rows f (suc start) n = ground (arith, here) in
      subst (In x) (sym eq) (In-left x a (rows f (suc start) n) m)
  Source-rows f start (suc n) (suc k) x a lt e m =
      let rest = Source-rows f (suc start) n k x a (omega arith) (ap f (omega arith) ∙ e) m in
      elim (Result-cases (f start)) [
        | inl (b, r) ↦
            let eq : rows f start (suc n) ≡ b ++ rows f (suc start) n = ground (arith, r) in
            subst (In x) (sym eq) (In-right x b (rows f (suc start) n) rest)
        | inr (y, r) ↦
            let eq : rows f start (suc n) ≡ rows f (suc start) n = ground (arith, r) in
            subst (In x) (sym eq) rest
      ]

module _ (P : Platform) (c : Config) {A : Type 0} (query : Query P.prisma.Db (List A))
    (consistency : Consistency) (w : World P) where
  -- A shard that exists and whose answer holds the row.
  abbrev pub Answered : A → Type 0
  Answered x =
      (k : ℕ) × (k < c.shard_count) × (a : List A) × (answer_of P c query w k ≡ ok a) × In x a

  -- With sharding and `allowPartial` the merged list always comes, and holds exactly the rows that
  -- the shards which answered have returned.
  pub fan_out_list-members :
      c.sharded ≡ true
      → (merged : List A) × ((fan_out_list P c query true consistency w).0 ≡ ok merged)
        × ((x : A) → In x merged ↔ Answered x)
  unfolding fan_out_list
  fan_out_list-members on =
      let (res, returned, parts, _, _) = fan_out_partial P c query consistency w on in
      let f = answer_of P c query w in
      let same : flatten_parts P c res.parts ≡ rows P c f 0 c.shard_count =
        ap (flatten_parts P c) parts in
      (
        flatten_parts P c res.parts,
        ground (arith, returned),
        λ x. (
          λ h.
              let (k, lo, hi, a, e, m) =
                rows-Source P c f 0 c.shard_count x (subst (In x) same h) in
              (k, omega (arith, hi), a, e, m),
          λ (k, lt, a, e, m).
              subst (In x) (sym same)
                (Source-rows P c f 0 c.shard_count k x a lt (ap f (omega arith) ∙ e) m),
        ),
      )
