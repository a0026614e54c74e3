-- ===== src/Bookings/Ledger/Rows.antt =====
-- What the moves of the ledger do to the rows of a table: distinct identifiers, free rooms, and
-- stays that end after they begin.
use mathlib.Core.Path.{subst}
use booking_hotel.Prelude.{
  sym, ◌≡◌, Bool, true, false, List, [], ◌∷◌, ◌++◌, All, All-concat, keep, str_eq, ltb, inl, inr,
  arith, Bool-cases,
}
use booking_hotel.Schema.{Booking, BookingStatus, is_active}
use booking_hotel.Runtime.Platform.{In, change}
use booking_hotel.Bookings.Service.{with_status}
use booking_hotel.Bookings.Reservation.Availability.{NoDoubleBooking, clash}

abbrev pub DistinctIds : List Booking → Type 0
DistinctIds [] = Unit
DistinctIds (b ∷ bs) = All (λ x. str_eq b.id x.id ≡ false) bs × DistinctIds bs

abbrev pub Forward : Booking → Type 0
Forward b = ltb b.check_in_date b.check_out_date ≡ true

module _ {ℓ} {A : Type 0} (P : A → Type ℓ) where
  pub All-keep : (q : A → Bool) (xs : List A) → All P xs → All P (keep q xs)
  All-keep q [] h = tt
  All-keep q (x ∷ xs) (h, hs) = elim (Bool-cases (q x)) [
    | inl e ↦ rw e (h, All-keep q xs hs)
    | inr e ↦ rw e (All-keep q xs hs)
  ]

pub All-map :
    {A : Type 0} {P Q : A → Type 0} → ((a : A) → P a → Q a) → (xs : List A) → All P xs → All Q xs
All-map f [] h = tt
All-map f (x ∷ xs) (h, hs) = (f x h, All-map f xs hs)

pub All-every : {A : Type 0} {P : A → Type 0} → ((a : A) → P a) → (xs : List A) → All P xs
All-every f [] = tt
All-every f (x ∷ xs) = (f x, All-every f xs)

pub All-In : {A : Type 0} (P : A → Type 0) (xs : List A) (a : A) → All P xs → In a xs → P a
All-In P [] a h m = absurd m
All-In P (x ∷ xs) a (h, hs) (inl q) = subst P (sym q) h
All-In P (x ∷ xs) a (h, hs) (inr m) = All-In P xs a hs m

-- A test that the change of a status does not affect.
pub All-change :
    (q : Booking → Type 0) (p : Booking → Bool) (s : BookingStatus) (bs : List Booking)
    → ((b : Booking) → q b → q (with_status s b))
    → All q bs
    → All q (change p (with_status s) bs)
All-change q p s [] f h = tt
All-change q p s (b ∷ bs) f (h, hs) = elim (Bool-cases (p b)) [
  | inl e ↦ rw e (f b h, All-change q p s bs f hs)
  | inr e ↦ rw e (h, All-change q p s bs f hs)
]

pub DistinctIds-append :
    (bs : List Booking) (b : Booking)
    → DistinctIds bs
    → All (λ x. str_eq x.id b.id ≡ false) bs
    → DistinctIds (bs ++ b ∷ [])
DistinctIds-append [] b h k = (tt, tt)
DistinctIds-append (x ∷ bs) b (h, hs) (k, ks) =
    (All-concat (λ y. str_eq x.id y.id ≡ false) bs b h k, DistinctIds-append bs b hs ks)

pub DistinctIds-change :
    (p : Booking → Bool) (s : BookingStatus) (bs : List Booking)
    → DistinctIds bs
    → DistinctIds (change p (with_status s) bs)
DistinctIds-change p s [] h = tt
DistinctIds-change p s (b ∷ bs) (h, hs) =
    let rest = All-change (λ x. str_eq b.id x.id ≡ false) p s bs (λ x k. k) h in
    elim (Bool-cases (p b)) [
      | inl e ↦ rw e (rest, DistinctIds-change p s bs hs)
      | inr e ↦ rw e (rest, DistinctIds-change p s bs hs)
    ]

pub DistinctIds-keep :
    (q : Booking → Bool) (bs : List Booking) → DistinctIds bs → DistinctIds (keep q bs)
DistinctIds-keep q [] h = tt
DistinctIds-keep q (b ∷ bs) (h, hs) = elim (Bool-cases (q b)) [
  | inl e ↦ rw e (All-keep (λ x. str_eq b.id x.id ≡ false) q bs h, DistinctIds-keep q bs hs)
  | inr e ↦ rw e (DistinctIds-keep q bs hs)
]

pub NoDoubleBooking-keep :
    (q : Booking → Bool) (bs : List Booking) → NoDoubleBooking bs → NoDoubleBooking (keep q bs)
NoDoubleBooking-keep q [] h = tt
NoDoubleBooking-keep q (b ∷ bs) (h, hs) = elim (Bool-cases (q b)) [
  | inl e ↦ rw e (All-keep (λ x. clash b x ≡ false) q bs h, NoDoubleBooking-keep q bs hs)
  | inr e ↦ rw e (NoDoubleBooking-keep q bs hs)
]

-- No row becomes active that was not.
abbrev pub NoRevival : (Booking → Bool) → BookingStatus → List Booking → Type 0
NoRevival p s bs = All (λ b. p b ≡ true → is_active s ≡ true → is_active b.status ≡ true) bs

clash-change :
    (a a' : Booking) (p : Booking → Bool) (s : BookingStatus) (bs : List Booking)
    → ((b : Booking) → clash a b ≡ false → clash a' b ≡ false)
    → NoRevival p s bs
    → All (λ x. clash a x ≡ false) bs
    → All (λ x. clash a' x ≡ false) (change p (with_status s) bs)
clash-change a a' p s [] f k h = tt
clash-change a a' p s (b ∷ bs) f (k, ks) (h, hs) = elim (Bool-cases (p b)) [
  | inl e ↦ rw e (ground (arith, f b h, k e), clash-change a a' p s bs f ks hs)
  | inr e ↦ rw e (f b h, clash-change a a' p s bs f ks hs)
]

pub NoDoubleBooking-change :
    (p : Booking → Bool) (s : BookingStatus) (bs : List Booking)
    → NoRevival p s bs
    → NoDoubleBooking bs
    → NoDoubleBooking (change p (with_status s) bs)
NoDoubleBooking-change p s [] k h = tt
NoDoubleBooking-change p s (b ∷ bs) (k, ks) (h, hs) = elim (Bool-cases (p b)) [
  | inl e ↦ rw e (
    clash-change b (with_status s b) p s bs (λ x n. ground (arith, n, k e)) ks h,
    NoDoubleBooking-change p s bs ks hs,
  )
  | inr e ↦ rw e (clash-change b b p s bs (λ x n. n) ks h, NoDoubleBooking-change p s bs ks hs)
]
