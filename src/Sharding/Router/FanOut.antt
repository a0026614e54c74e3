-- ===== src/Sharding/Router/FanOut.antt =====
-- Scatter and gather: what a fan-out over the physical shards returns.
use mathlib.Core.Path.{subst}
use booking_hotel.Sharding.Router.Isolation.{run_physical-nodes, answer_of}
use booking_hotel.Runtime.Errors.{Result-cases, err, ok, Error, Result}
use booking_hotel.Prelude.{
  length-range_from, inr, length-map, sym, Bool, inl, ap, some, ◌<◌, [], false, ◌∷◌, ◌+◌, JsString,
  length, ◌∙◌, arith, refl, zero, ◌≢◌, suc, range_from, map, get_elem?, true, ◌≡◌, List, ◌≤◌, ℕ,
}
use booking_hotel.Sharding.Router.{
  fan_out, name_of, FanOutResult, gather, FanOutPart, reads, read_shard, settle_all, ask,
}
use booking_hotel.Database.Router.{Consistency}
use booking_hotel.Runtime.World.{World, Config}
use native.Mathlib.Nat.{zero-add}
use booking_hotel.Runtime.Platform.{Query, Platform}

module _ (P : Platform) (c : Config) {A : Type 0} (query : Query P.prisma.Db A)
    (consistency : Consistency) where
  -- Each shard's answer, taken from the state before the fan-out.
  abbrev pub answers_from : World P → ℕ → ℕ → List (ℕ × Result A)
  answers_from w start n = map (λ i. (i, answer_of P c query w i)) (range_from start n)

  ask-nodes :
      (index : ℕ) (w : World P)
      → c.sharded ≡ true
      → let (r, w') = ask P c query consistency index w in
        (r ≡ answer_of P c query w index)
        × ((j : ℕ) → index ≢ j → get_elem? w'.shard_dbs j ≡ get_elem? w.shard_dbs j)
  unfolding ask read_shard
  ask-nodes index w on =
      let (r, _, others, _, _) = run_physical-nodes P c index reads query w in
      (ground arith, λ j ne. ground (arith, others j ne))

  settle_all-answers :
      (w w0 : World P) (start n : ℕ)
      → c.sharded ≡ true
      → ((j : ℕ) → start ≤ j → get_elem? w.shard_dbs j ≡ get_elem? w0.shard_dbs j)
      → (settle_all P c query consistency (range_from start n) w).0 ≡ answers_from w0 start n
  unfolding settle_all
  settle_all-answers w w0 start zero on same = refl
  settle_all-answers w w0 start (suc n) on same =
      let (r, others) = ask-nodes start w on in
      let (_, w') = ask P c query consistency start w in
      let rest =
        settle_all-answers w' w0 (suc start) n on
          (λ j le. others j (omega arith) ∙ same j (omega arith)) in
      let first : answer_of P c query w start ≡ answer_of P c query w0 start =
        ground (arith, same start (omega arith)) in
      cc

module _ (P : Platform) (c : Config) {A : Type 0} where
  -- The parts and the names that a list of outcomes gives, shard by shard.
  abbrev pub parts_of : List (ℕ × Result A) → List (FanOutPart A)
  parts_of [] = []
  parts_of ((i, ok a) ∷ rest) = record { shard = name_of P c i; result = a } ∷ parts_of rest
  parts_of ((i, err e) ∷ rest) = parts_of rest

  abbrev pub failed_of : List (ℕ × Result A) → List JsString
  failed_of [] = []
  failed_of ((i, ok a) ∷ rest) = failed_of rest
  failed_of ((i, err e) ∷ rest) = name_of P c i ∷ failed_of rest

  gather_partial :
      (l : List (ℕ × Result A))
      → gather P c true l ≡ ok (record { parts = parts_of l; failed = failed_of l })
  unfolding gather
  gather_partial [] = refl
  gather_partial ((i, ok a) ∷ rest) = rw (gather_partial rest)
  gather_partial ((i, err e) ∷ rest) = rw (gather_partial rest)

  length-parts_of :
      (l : List (ℕ × Result A)) → length (parts_of l) + length (failed_of l) ≡ length l
  length-parts_of [] = omega arith
  length-parts_of ((i, ok a) ∷ rest) = omega (arith, length-parts_of rest)
  length-parts_of ((i, err e) ∷ rest) = omega (arith, length-parts_of rest)

  -- Without `allowPartial`, a gather that returns has met an answer at its head.
  gather_cons :
      (i : ℕ) (r : Result A) (rest : List (ℕ × Result A)) (res : FanOutResult A)
      → gather P c false ((i, r) ∷ rest) ≡ ok res
      → (a : A) × (tail : FanOutResult A) × (r ≡ ok a)
        × (gather P c false rest ≡ ok tail)
        × (res.parts ≡ record { shard = name_of P c i; result = a } ∷ tail.parts)
        × (res.failed ≡ tail.failed)
  unfolding gather
  gather_cons i (ok a) rest res e = elim (Result-cases (gather P c false rest)) [
    | inl (tail, t) ↦ (a, tail, refl, t, ground arith, ground arith)
    | inr (x, t) ↦ absurd (ground arith)
  ]
  gather_cons i (err x) rest res e = cc

  gather_failed :
      (f : ℕ → Result A) (start n : ℕ) (res : FanOutResult A)
      → gather P c false (map (λ i. (i, f i)) (range_from start n)) ≡ ok res
      → res.failed ≡ []
  gather_failed f start zero res e = unfold gather in cc
  gather_failed f start (suc n) res e =
      let (a, tail, _, t, _, same) =
        gather_cons start (f start) (map (λ i. (i, f i)) (range_from (suc start) n)) res e in
      same ∙ gather_failed f (suc start) n tail t

  gather_part :
      (f : ℕ → Result A) (start n k : ℕ) (res : FanOutResult A)
      → k < n
      → gather P c false (map (λ i. (i, f i)) (range_from start n)) ≡ ok res
      → (a : A) × (f (start + k) ≡ ok a)
        × (get_elem? res.parts k ≡ some (record { shard = name_of P c (start + k); result = a }))
  gather_part f start zero k res lt e = elim lt [ ]
  gather_part f start (suc n) zero res lt e =
      let (a, tail, at, _, parts, _) =
        gather_cons start (f start) (map (λ i. (i, f i)) (range_from (suc start) n)) res e in
      let here : start + 0 ≡ start = omega arith in (a, rw here at, rw parts (rw here refl))
  gather_part f start (suc n) (suc k) res lt e =
      let (_, tail, _, t, parts, _) =
        gather_cons start (f start) (map (λ i. (i, f i)) (range_from (suc start) n)) res e in
      let (a, at, found) = gather_part f (suc start) n k tail (omega arith) t in
      let there : start + suc k ≡ suc start + k = omega arith in
      (a, rw there at, rw parts (rw there found))

  gather_first :
      (f : ℕ → Result A) (start n k : ℕ) (e : Error)
      → k < n
      → ((i : ℕ) → i < k → (a : A) × (f (start + i) ≡ ok a))
      → f (start + k) ≡ err e
      → gather P c false (map (λ i. (i, f i)) (range_from start n)) ≡ err e
  unfolding gather
  gather_first f start zero k e lt before at = elim lt [ ]
  gather_first f start (suc n) zero e lt before at =
      let here : start + 0 ≡ start = omega arith in
      let now : f start ≡ err e = rw here at (at) in ground arith
  gather_first f start (suc n) (suc k) e lt before at =
      let (a, first) = before 0 (omega arith) in
      let here : f start ≡ ok a = ap f (omega arith) ∙ first in
      let there : f (suc start + k) ≡ err e = ap f (omega arith) ∙ at in
      let rest =
        gather_first f (suc start) n k e (omega arith)
          (λ i le. let (b, s) = before (suc i) (omega arith) in (b, ap f (omega arith) ∙ s))
          there in
      ground arith

module _ (P : Platform) (c : Config) {A : Type 0} (query : Query P.prisma.Db A)
    (consistency : Consistency) (w : World P) where
  fan_out-gather :
      (allow_partial : Bool)
      → c.sharded ≡ true
      → (fan_out P c query allow_partial consistency w).0
        ≡ gather P c allow_partial (answers_from P c query consistency w 0 c.shard_count)
  unfolding fan_out
  fan_out-gather allow_partial on =
      let settled =
        settle_all-answers P c query consistency w w 0 c.shard_count on (λ j le. refl) in
      ground (arith, settled)

  -- With sharding and `allowPartial` a fan-out always returns: the answers of the shards that
  -- answered, in the order of the shards, and the names of the others, together one for each
  -- shard.
  pub fan_out_partial :
      c.sharded ≡ true
      → (res : FanOutResult A) × ((fan_out P c query true consistency w).0 ≡ ok res)
        × (res.parts ≡ parts_of P c (answers_from P c query consistency w 0 c.shard_count))
        × (res.failed ≡ failed_of P c (answers_from P c query consistency w 0 c.shard_count))
        × (length res.parts + length res.failed ≡ c.shard_count)
  fan_out_partial on =
      let l = answers_from P c query consistency w 0 c.shard_count in
      let sizes : length l ≡ c.shard_count =
        length-map (λ i. (i, answer_of P c query w i)) (range_from 0 c.shard_count)
        ∙ length-range_from 0 c.shard_count in
      (
        record { parts = parts_of P c l; failed = failed_of P c l },
        fan_out-gather true on ∙ gather_partial P c l,
        refl,
        refl,
        length-parts_of P c l ∙ sizes,
      )

  -- With sharding and without `allowPartial`, a fan-out that returns has the answer of every
  -- shard, in order, and none failed.
  pub fan_out_complete :
      (res : FanOutResult A)
      → c.sharded ≡ true
      → (fan_out P c query false consistency w).0 ≡ ok res
      → (res.failed ≡ [])
        × ((k : ℕ)
            → k < c.shard_count
            → (a : A) × (answer_of P c query w k ≡ ok a)
              × (get_elem? res.parts k ≡ some (record { shard = name_of P c k; result = a })))
  fan_out_complete res on e =
      let e' = sym (fan_out-gather false on) ∙ e in
      (
        gather_failed P c (answer_of P c query w) 0 c.shard_count res e',
        λ k lt.
            subst
              (λ (i : ℕ).
                (a : A) × (answer_of P c query w i ≡ ok a)
                × (get_elem? res.parts k ≡ some (record { shard = name_of P c i; result = a })))
              (zero-add k) (gather_part P c (answer_of P c query w) 0 c.shard_count k res lt e'),
      )

  -- With sharding and without `allowPartial`, the error of the first shard that fails is the error
  -- of the fan-out.
  pub fan_out_refused :
      (k : ℕ) (e : Error)
      → c.sharded ≡ true
      → k < c.shard_count
      → ((i : ℕ) → i < k → (a : A) × (answer_of P c query w i ≡ ok a))
      → answer_of P c query w k ≡ err e
      → (fan_out P c query false consistency w).0 ≡ err e
  fan_out_refused k e on lt before at =
      fan_out-gather false on
      ∙ gather_first P c (answer_of P c query w) 0 c.shard_count k e lt
          (λ i le. let (a, h) = before i le in (a, ap (answer_of P c query w) (zero-add i) ∙ h))
          (ap (answer_of P c query w) (zero-add k) ∙ at)
