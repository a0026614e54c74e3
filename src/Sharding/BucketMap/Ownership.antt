-- ===== src/Sharding/BucketMap/Ownership.antt =====
-- Who owns a bucket in the map that `buildBucketMap` returns, and when it returns one.
use booking_hotel.Prelude.{
  sym, ◌↔◌, ℕ, zero, suc, ◌+◌, ◌-◌, ◌%◌, ◌≤◌, ◌<◌, ◌≡◌, ◌∙◌, ap, refl, Bool, true, ◌&&◌, none, some,
  List, [], ◌∷◌, map, JsString, arith, ltb, leb, if◌then◌else◌, length, get_or, set, All,
  range_from, trim, split, Option-cases, Bool-cases, inl, inr, length-set, get_or-set_self,
  get_or-set_ne, All-set,
}
use mathlib.Core.Path.{subst}
use native.Mathlib.Nat.{mod-lt}
use booking_hotel.Sharding.Key.{buckets}
use booking_hotel.Sharding.BucketMap.{
  Fragment, BuildResult, built, match_fragment, in_bounds, fill, apply_fragment, apply_parts,
  round_robin, build_bucket_map,
}

length-fill : (k from shard : ℕ) (m : List ℕ) → length (fill k from shard m) ≡ length m
unfolding fill
length-fill zero from shard m = refl
length-fill (suc k) from shard m =
    omega (arith, length-fill k (suc from) shard (set m from shard), length-set m from shard)

fill-All :
    (n k from shard : ℕ) (m : List ℕ)
    → All (λ s. s < n) m
    → shard < n
    → All (λ s. s < n) (fill k from shard m)
unfolding fill
fill-All n zero from shard m h p = h
fill-All n (suc k) from shard m h p =
    fill-All n k (suc from) shard (set m from shard) (All-set (λ s. s < n) m from shard h p) p

-- What the loop writes: the shard on its range, nothing outside.
get_or-fill :
    (k from shard b : ℕ) (m : List ℕ)
    → from + k ≤ length m
    → get_or (fill k from shard m) b 0
      ≡ (if leb from b && ltb b (from + k) then shard else get_or m b 0)
unfolding fill
get_or-fill zero from shard b m h = ground arith
get_or-fill (suc k) from shard b m h = ground (
  arith,
  get_or-fill k (suc from) shard b (set m from shard),
  length-set m from shard,
  get_or-set_self m from shard 0,
  get_or-set_ne m from b shard 0,
)

abbrev covers : Fragment → ℕ → Bool
covers f b = leb f.from b && leb b f.to

get_or-apply_fragment :
    (n b : ℕ) (f : Fragment) (m : List ℕ)
    → in_bounds n f ≡ true
    → length m ≡ buckets
    → get_or (apply_fragment f m) b 0 ≡ (if covers f b then f.shard else get_or m b 0)
unfolding apply_fragment in_bounds
get_or-apply_fragment n b f m h len =
    ground (arith, get_or-fill (suc f.to - f.from) f.from f.shard b m)

-- A fragment of the specification that the source accepts.
abbrev pub Fits : ℕ → JsString → Type 0
Fits n part =
    (f : Fragment) × (match_fragment (trim part) ≡ some f)
    × (f.from ≤ f.to)
    × (f.to < buckets)
    × (f.shard < n)

-- The owner by the text of the specification: the last fragment that covers the bucket.
abbrev pub owner : List JsString → ℕ → ℕ → ℕ
owner [] b d = d
owner (part ∷ parts) b d = owner parts b (elim (match_fragment (trim part)) [
  | none ↦ d
  | some f ↦ if leb f.from b && leb b f.to then f.shard else d
])

record IsMap (n : ℕ) (m : List ℕ) : Type 0 where
  size : length m ≡ buckets
  owners : All (λ s. s < n) m

apply_fragment-IsMap :
    (n : ℕ) (f : Fragment) (m : List ℕ)
    → in_bounds n f ≡ true
    → IsMap n m
    → IsMap n (apply_fragment f m)
unfolding apply_fragment in_bounds
apply_fragment-IsMap n f m h v = record {
  size = ground (arith, length-fill (suc f.to - f.from) f.from f.shard m);
  owners = fill-All n (suc f.to - f.from) f.from f.shard m v.owners (ground arith);
}

-- One round that did not throw.
apply_parts-cons :
    (n : ℕ) (part : JsString) (parts : List JsString) (m out : List ℕ)
    → apply_parts n (part ∷ parts) m ≡ built out
    → (f : Fragment) × (match_fragment (trim part) ≡ some f)
      × (in_bounds n f ≡ true)
      × (apply_parts n parts (apply_fragment f m) ≡ built out)
unfolding apply_parts
apply_parts-cons n part parts m out e = elim (Option-cases (match_fragment (trim part))) [
  | inl missed ↦ absurd (ground arith)
  | inr (f, found) ↦ elim (Bool-cases (in_bounds n f)) [
    | inl fits ↦ (f, found, fits, ground arith)
    | inr wrong ↦ absurd (ground arith)
  ]
]

apply_parts-nil : (n : ℕ) (m out : List ℕ) → apply_parts n [] m ≡ built out → m ≡ out
unfolding apply_parts
apply_parts-nil n m out e = cc

apply_parts-IsMap :
    (n : ℕ) (parts : List JsString) (m out : List ℕ)
    → IsMap n m
    → apply_parts n parts m ≡ built out
    → IsMap n out
apply_parts-IsMap n [] m out v e = subst (IsMap n) (apply_parts-nil n m out e) v
apply_parts-IsMap n (part ∷ parts) m out v e =
    let (f, _, fits, e') = apply_parts-cons n part parts m out e in
    apply_parts-IsMap n parts (apply_fragment f m) out (apply_fragment-IsMap n f m fits v) e'

get_or-apply_parts :
    (n b : ℕ) (parts : List JsString) (m out : List ℕ)
    → IsMap n m
    → apply_parts n parts m ≡ built out
    → get_or out b 0 ≡ owner parts b (get_or m b 0)
get_or-apply_parts n b [] m out v e = rw (apply_parts-nil n m out e)
get_or-apply_parts n b (part ∷ parts) m out v e =
    let (f, found, fits, e') = apply_parts-cons n part parts m out e in
    rw (found) (
      rw (← get_or-apply_fragment n b f m fits v.size) (
        get_or-apply_parts n b parts (apply_fragment f m) out (apply_fragment-IsMap n f m fits v)
          e'))

apply_parts-Fits :
    (n : ℕ) (parts : List JsString) (m out : List ℕ)
    → apply_parts n parts m ≡ built out
    → All (Fits n) parts
apply_parts-Fits n [] m out e = tt
apply_parts-Fits n (part ∷ parts) m out e =
    let (f, found, fits, e') = apply_parts-cons n part parts m out e in
    (
      (
        f,
        found,
        unfold in_bounds in ground arith,
        unfold in_bounds in ground arith,
        unfold in_bounds in ground arith,
      ),
      apply_parts-Fits n parts (apply_fragment f m) out e',
    )

Fits-apply_parts :
    (n : ℕ) (parts : List JsString) (m : List ℕ)
    → All (Fits n) parts
    → (out : List ℕ) × (apply_parts n parts m ≡ built out)
unfolding apply_parts
Fits-apply_parts n [] m h = (m, refl)
Fits-apply_parts n (part ∷ parts) m ((f, found, le, lt, owned), h) =
    let fits : in_bounds n f ≡ true = unfold in_bounds in ground arith in
    let (out, e) = Fits-apply_parts n parts (apply_fragment f m) h in
    (out, rw (found, apply_parts) (rw (fits, apply_parts) e))

mod_All : (n k from : ℕ) → 0 < n → All (λ s. s < n) (map (λ b. b % n) (range_from from k))
mod_All n zero from h = tt
mod_All n (suc k) from h = (mod-lt from h, mod_All n k (suc from) h)

get_or-mod :
    (n k from b : ℕ) → b < k → get_or (map (λ b. b % n) (range_from from k)) b 0 ≡ (from + b) % n
get_or-mod n zero from b h = elim h [ ]
get_or-mod n (suc k) from zero h = ap (λ (x : ℕ). x % n) (omega arith)
get_or-mod n (suc k) from (suc b) h =
    get_or-mod n k (suc from) b (omega arith) ∙ ap (λ (x : ℕ). x % n) (omega arith)

round_robin-IsMap : (n : ℕ) → 0 < n → IsMap n (round_robin n)
unfolding round_robin
round_robin-IsMap n h = record { size = refl; owners = mod_All n buckets 0 h }

-- The fragments that the source reads: none if the variable is blank.
abbrev pub fragments : JsString → List JsString
fragments spec = elim (trim spec) [ [] ↦ [] | _ ∷ _ ↦ split b',' spec ]

build-apply_parts :
    (n : ℕ) (spec : JsString)
    → build_bucket_map n spec ≡ apply_parts n (fragments spec) (round_robin n)
unfolding build_bucket_map apply_parts
build-apply_parts n spec = go (trim spec)
  where
    go :
        (t : JsString)
        → (elim t as (λ _. BuildResult) [
          | [] ↦ built (round_robin n)
          | _ ∷ _ ↦ apply_parts n (split b',' spec) (round_robin n)
        ])
          ≡ apply_parts n
              (elim t as (λ _. List JsString) [ [] ↦ [] | _ ∷ _ ↦ split b',' spec ])
              (round_robin n)
    go [] = refl
    go (_ ∷ _) = refl

-- For at least one shard: a map that is built has 64 entries, each one a shard's number, and the
-- entry of a bucket is the shard of the last fragment that covers it, or the bucket modulo the
-- number of shards where no fragment does.
pub build_bucket_map-owner :
    (n : ℕ) (spec : JsString) (m : List ℕ)
    → 0 < n
    → build_bucket_map n spec ≡ built m
    → (length m ≡ buckets)
      × All (λ s. s < n) m
      × ((b : ℕ) → b < buckets → get_or m b 0 ≡ owner (fragments spec) b (b % n))
build_bucket_map-owner n spec m h e =
    let e' : apply_parts n (fragments spec) (round_robin n) ≡ built m =
      sym (build-apply_parts n spec) ∙ e in
    let valid : IsMap n m =
      apply_parts-IsMap n (fragments spec) (round_robin n) m (round_robin-IsMap n h) e' in
    (
      valid.size,
      valid.owners,
      λ b lt.
          get_or-apply_parts n b (fragments spec) (round_robin n) m (round_robin-IsMap n h) e'
          ∙ ap (owner (fragments spec) b) (
              unfold round_robin in
              get_or-mod n buckets 0 b lt ∙ ap (λ (x : ℕ). x % n) (omega arith)),
    )

-- A map is built exactly when every fragment of the specification is well formed, its range is
-- not reversed and ends below 64, and its shard exists.
pub build_bucket_map-built_iff :
    (n : ℕ) (spec : JsString)
    → ((m : List ℕ) × (build_bucket_map n spec ≡ built m)) ↔ All (Fits n) (fragments spec)
build_bucket_map-built_iff n spec = (
  λ (m, e).
      apply_parts-Fits n (fragments spec) (round_robin n) m (sym (build-apply_parts n spec) ∙ e),
  λ h.
      let (m, e) = Fits-apply_parts n (fragments spec) (round_robin n) h in
      (m, build-apply_parts n spec ∙ e),
)
