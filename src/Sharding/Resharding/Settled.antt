-- ===== src/Sharding/Resharding/Settled.antt =====
-- The buckets of a map that are not on the stack of spare ones, counted by shard.
use booking_hotel.Prelude.{
  ℕ, zero, suc, ◌+◌, ◌<◌, ◌≡◌, ◌==◌, Bool, true, false, List, [], ◌∷◌, any, length, set, get_or,
  if◌then◌else◌, refl, arith,
}
use booking_hotel.Sharding.Resharding.{owned_by}

abbrev pub is_spare : List ℕ → ℕ → Bool
is_spare spare i = any (λ b. b == i) spare

abbrev pub one_if : Bool → ℕ
one_if true = 1
one_if false = 0

-- The buckets from `i` on that lie on `shard` and are not spare.
abbrev pub settled_from : ℕ → List ℕ → List ℕ → ℕ → ℕ
settled_from i [] spare shard = 0
settled_from i (s ∷ m) spare shard =
    (if is_spare spare i then 0 else one_if (s == shard)) + settled_from (suc i) m spare shard

-- The spare buckets are distinct, and are buckets.
abbrev pub Good : ℕ → List ℕ → Type 0
Good size [] = Unit
Good size (b ∷ spare) = (b < size) × (is_spare spare b ≡ false) × Good size spare

pub settled_from-nothing_spare :
    (i : ℕ) (m : List ℕ) (shard : ℕ) → settled_from i m [] shard ≡ owned_by m shard
unfolding owned_by
settled_from-nothing_spare i [] shard = refl
settled_from-nothing_spare i (s ∷ m) shard =
    let rest = settled_from-nothing_spare (suc i) m shard in ground (arith, rest)

-- A bucket in front of those counted may be spare or not.
settled_from-before :
    (b i : ℕ) (m spare : List ℕ) (shard : ℕ)
    → b < i
    → settled_from i m (b ∷ spare) shard ≡ settled_from i m spare shard
settled_from-before b i [] spare shard lt = refl
settled_from-before b i (s ∷ m) spare shard lt =
    let rest = settled_from-before b (suc i) m spare shard (omega arith) in
    let other : (b == i) ≡ false = ground (arith, lt) in ground (arith, rest, other)

-- A bucket that becomes spare is one less for its shard.
pub settled_from-taken :
    (b k i : ℕ) (m spare : List ℕ) (shard : ℕ)
    → b ≡ i + k
    → k < length m
    → is_spare spare b ≡ false
    → settled_from i m (b ∷ spare) shard + one_if (get_or m k 0 == shard)
      ≡ settled_from i m spare shard
settled_from-taken b k i [] spare shard e lt free = elim lt [ ]
settled_from-taken b zero i (s ∷ m) spare shard e lt free =
    let q : b ≡ i = omega (arith, e) in
    let here : (b == i) ≡ true = ground (arith, q) in
    let free' : is_spare spare i ≡ false = ground (arith, free, q) in
    let rest = settled_from-before b (suc i) m spare shard (omega (arith, q)) in
    rw (here, free', rest) (omega arith)
settled_from-taken b (suc k) i (s ∷ m) spare shard e lt free =
    let other : (b == i) ≡ false = ground (arith, e) in
    let rest = settled_from-taken b k (suc i) m spare shard (omega (arith, e)) (omega arith) free in
    rw (other, ← rest) (omega arith)

-- A spare bucket that is given to a shard is one more for that shard.
pub settled_from-given :
    (b k i : ℕ) (m spare : List ℕ) (to shard : ℕ)
    → b ≡ i + k
    → k < length m
    → is_spare spare b ≡ false
    → settled_from i (set m k to) spare shard
      ≡ settled_from i m (b ∷ spare) shard + one_if (to == shard)
settled_from-given b k i [] spare to shard e lt free = elim lt [ ]
settled_from-given b zero i (s ∷ m) spare to shard e lt free =
    let q : b ≡ i = omega (arith, e) in
    let here : (b == i) ≡ true = ground (arith, q) in
    let free' : is_spare spare i ≡ false = ground (arith, free, q) in
    let rest = settled_from-before b (suc i) m spare shard (omega (arith, q)) in
    rw (here, free', rest) (omega arith)
settled_from-given b (suc k) i (s ∷ m) spare to shard e lt free =
    let other : (b == i) ≡ false = ground (arith, e) in
    let rest =
      settled_from-given b k (suc i) m spare to shard (omega (arith, e)) (omega arith) free in
    rw (other, rest) (omega arith)
