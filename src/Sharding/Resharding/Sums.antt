-- ===== src/Sharding/Resharding/Sums.antt =====
-- Sums over the shards, and the buckets of a map counted from the end.
use mathlib.Core.Path.{subst}
use booking_hotel.Prelude.{
  ◌∙◌, ap, ℕ, zero, suc, ◌+◌, ◌-◌, ◌*◌, ◌/◌, ◌%◌, ◌<◌, ◌≤◌, ◌≡◌, ◌≢◌, ◌==◌, ltb, List, [], ◌∷◌, All,
  adjust, length, map, get_or, range_from, if◌then◌else◌, refl, arith, Bool-cases, inl, inr,
}
use native.Mathlib.Nat.{div-add-mod, mod-lt}
use booking_hotel.Sharding.Key.{buckets}
use booking_hotel.Sharding.Resharding.{owned_by, quota}
use booking_hotel.Sharding.Resharding.Settled.{one_if}

-- `f s + f (s + 1) + …`, `k` terms.
abbrev pub sum_from : ℕ → ℕ → (ℕ → ℕ) → ℕ
sum_from s zero f = 0
sum_from s (suc k) f = f s + sum_from (suc s) k f

pub sum_from-add :
    (s k : ℕ) (f g h : ℕ → ℕ)
    → ((t : ℕ) → s ≤ t → t < s + k → f t + g t ≡ h t)
    → sum_from s k f + sum_from s k g ≡ sum_from s k h
sum_from-add s zero f g h e = refl
sum_from-add s (suc k) f g h e =
    let rest = sum_from-add (suc s) k f g h (λ t le lt. e t (omega arith) (omega arith)) in
    let here = e s (omega arith) (omega arith) in omega (arith, rest, here)

pub sum_from-cong :
    (s k : ℕ) (f g : ℕ → ℕ) → ((t : ℕ) → f t ≡ g t) → sum_from s k f ≡ sum_from s k g
sum_from-cong s zero f g e = refl
sum_from-cong s (suc k) f g e =
    let rest = sum_from-cong (suc s) k f g e in let here = e s in omega (arith, rest, here)

pub sum_from-none : (s k x : ℕ) → x < s → sum_from s k (λ t. one_if (x == t)) ≡ 0
sum_from-none s zero x lt = refl
sum_from-none s (suc k) x lt =
    let rest = sum_from-none (suc s) k x (omega arith) in ground (arith, rest, lt)

-- Exactly one shard of the sum is `x`.
pub sum_from-one : (s k x : ℕ) → s ≤ x → x < s + k → sum_from s k (λ t. one_if (x == t)) ≡ 1
sum_from-one s zero x le lt = absurd (omega (arith, le, lt))
sum_from-one s (suc k) x le lt = elim (Bool-cases (x == s)) [
  | inl here ↦
      let q : x ≡ s = ground (arith, here) in
      let rest = sum_from-none (suc s) k x (omega (arith, q)) in rw here (omega (arith, rest))
  | inr later ↦
      let ne : s < x = ground (arith, later, le) in
      let rest = sum_from-one (suc s) k x (omega arith) (omega arith) in
      rw later (omega (arith, rest))
]

pub sum_from-owned_by :
    (to : ℕ) (m : List ℕ) → All (λ s. s < to) m → sum_from 0 to (owned_by m) ≡ length m
unfolding owned_by
sum_from-owned_by to [] h = nothing 0 to
  where
    nothing : (s k : ℕ) → sum_from s k (owned_by []) ≡ 0
    nothing s zero = refl
    nothing s (suc k) = let rest = nothing (suc s) k in omega (arith, rest)
sum_from-owned_by to (x ∷ m) (h, hs) =
    let rest = sum_from-owned_by to m hs in
    let one = sum_from-one 0 to x (omega arith) (omega (arith, h)) in
    let both =
      sum_from-add 0 to (λ t. one_if (x == t)) (owned_by m) (owned_by (x ∷ m))
        (λ t le lt. ground arith) in
    omega (arith, rest, one, both)

-- The first `k` buckets that lie on a shard.
unfoldable pub among : List ℕ → ℕ → ℕ → ℕ
among m zero t = 0
among m (suc k) t = one_if (get_or m k 0 == t) + among m k t

among-cons :
    (x : ℕ) (m : List ℕ) (k t : ℕ) → among (x ∷ m) (suc k) t ≡ one_if (x == t) + among m k t
unfolding among
among-cons x m zero t = refl
among-cons x m (suc k) t = let rest = among-cons x m k t in omega (arith, rest)

pub among-zero : (m : List ℕ) (t : ℕ) → among m 0 t ≡ 0
unfolding among
among-zero m t = refl

pub among-suc :
    (m : List ℕ) (k t : ℕ) → among m (suc k) t ≡ one_if (get_or m k 0 == t) + among m k t
unfolding among
among-suc m k t = refl

pub among-all : (m : List ℕ) (t : ℕ) → among m (length m) t ≡ owned_by m t
unfolding owned_by among
among-all [] t = refl
among-all (x ∷ m) t =
    let rest = among-all m t in
    let split = among-cons x m (length m) t in ground (arith, rest, split)

pub get_or-map_range :
    (f : ℕ → ℕ) (s n t : ℕ) → t < n → get_or (map f (range_from s n)) t 0 ≡ f (s + t)
get_or-map_range f s zero t lt = absurd (omega arith)
get_or-map_range f s (suc n) zero lt = ap f (omega arith)
get_or-map_range f s (suc n) (suc t) lt =
    get_or-map_range f (suc s) n t (omega arith) ∙ ap f (omega arith)

pub get_or-adjust_self :
    (f : ℕ → ℕ) (xs : List ℕ) (i : ℕ)
    → 0 < get_or xs i 0
    → get_or (adjust f xs i) i 0 ≡ f (get_or xs i 0)
get_or-adjust_self f [] i lt = elim lt [ ]
get_or-adjust_self f (x ∷ xs) zero lt = refl
get_or-adjust_self f (x ∷ xs) (suc i) lt = get_or-adjust_self f xs i lt

pub get_or-adjust_ne :
    (f : ℕ → ℕ) (xs : List ℕ) (i j : ℕ) → i ≢ j → get_or (adjust f xs i) j 0 ≡ get_or xs j 0
get_or-adjust_ne f [] i j ne = refl
get_or-adjust_ne f (x ∷ xs) zero zero ne = absurd (ne refl)
get_or-adjust_ne f (x ∷ xs) zero (suc j) ne = refl
get_or-adjust_ne f (x ∷ xs) (suc i) zero ne = refl
get_or-adjust_ne f (x ∷ xs) (suc i) (suc j) ne = get_or-adjust_ne f xs i j (λ e. ne (ap suc e))

-- One less for `i`, and no change for the others.
pub get_or-lowered :
    (xs : List ℕ) (i j : ℕ)
    → 0 < get_or xs i 0
    → get_or (adjust (λ n. n - 1) xs i) j 0 + one_if (i == j) ≡ get_or xs j 0
get_or-lowered xs i j lt = elim (Bool-cases (i == j)) [
  | inl same ↦
      let q : i ≡ j = ground (arith, same) in
      let less = get_or-adjust_self (λ n. n - 1) xs i lt in
      let less' : get_or (adjust (λ n. n - 1) xs i) j 0 ≡ get_or xs j 0 - 1 =
        subst (λ k. get_or (adjust (λ n. n - 1) xs i) k 0 ≡ get_or xs k 0 - 1) q less in
      let some_left : 0 < get_or xs j 0 = subst (λ k. 0 < get_or xs k 0) q lt in
      rw same (omega (arith, less', some_left))
  | inr other ↦
      let ne : i ≢ j = λ q. absurd (ground (arith, other, q)) in
      rw other (omega (arith, get_or-adjust_ne (λ n. n - 1) xs i j ne))
]

-- The quotas of all shards together.
sum_from-past : (s k r : ℕ) → r ≤ s → sum_from s k (λ t. if ltb t r then 1 else 0) ≡ 0
sum_from-past s zero r le = refl
sum_from-past s (suc k) r le =
    let rest = sum_from-past (suc s) k r (omega arith) in ground (arith, rest, le)

sum_from-below :
    (s k r : ℕ) → s ≤ r → r ≤ s + k → sum_from s k (λ t. if ltb t r then 1 else 0) ≡ r - s
sum_from-below s zero r le lt = omega arith
sum_from-below s (suc k) r le lt = elim (Bool-cases (ltb s r)) [
  | inl more ↦
      let more' : s < r = ground (arith, more) in
      let rest = sum_from-below (suc s) k r (omega arith) (omega arith) in
      rw more (omega (arith, rest))
  | inr last ↦
      let last' : r ≤ s = ground (arith, last) in
      let rest = sum_from-past (suc s) k r (omega arith) in rw last (omega (arith, rest))
]

sum_from-same : (s k n : ℕ) → sum_from s k (λ t. n) ≡ k * n
sum_from-same s zero n = omega arith
sum_from-same s (suc k) n = let rest = sum_from-same (suc s) k n in omega (arith, rest)

pub sum_from-quota : (to : ℕ) → 0 < to → sum_from 0 to (quota to) ≡ buckets
unfolding quota
sum_from-quota to lt =
    let both =
      sum_from-add 0 to (λ t. buckets / to) (λ t. if ltb t (buckets % to) then 1 else 0) (quota to)
        (λ t le h. refl) in
    let whole = sum_from-same 0 to (buckets / to) in
    let extra =
      sum_from-below 0 to (buckets % to) (omega arith) (omega (arith, mod-lt buckets lt)) in
    omega (arith, both, whole, extra, div-add-mod buckets to)
