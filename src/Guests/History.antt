-- ===== src/Guests/History.antt =====
-- `findBookings` of GuestsService: the order of the history.
use booking_hotel.Prelude.{
  leb, ◌≤◌, ◌≡◌, List, [], ◌∷◌, All, arith, Bool-cases, inl, inr, Bool, keep, length, ℕ,
}
use booking_hotel.Schema.{Booking}
use booking_hotel.Guests.{insert_newest, newest_first}
use mathlib.Core.Path.{refl}

-- Every booking is at least as recent as those behind it.
abbrev pub IsNewestFirst : List Booking → Type 0
IsNewestFirst [] = Unit
IsNewestFirst (b ∷ bs) = All (λ x. x.created_at ≤ b.created_at) bs × IsNewestFirst bs

insert_newest-All :
    (n : ℕ) (b : Booking) (bs : List Booking)
    → b.created_at ≤ n
    → All (λ x. x.created_at ≤ n) bs
    → All (λ x. x.created_at ≤ n) (insert_newest b bs)
unfolding insert_newest
insert_newest-All n b [] le h = (le, tt)
insert_newest-All n b (x ∷ xs) le (k, ks) = elim (Bool-cases (leb x.created_at b.created_at)) [
  | inl later ↦ rw (later, insert_newest) (le, (k, ks))
  | inr earlier ↦ rw (earlier, insert_newest) (k, insert_newest-All n b xs le ks)
]

All-weaken :
    (m n : ℕ) (bs : List Booking)
    → m ≤ n
    → All (λ x. x.created_at ≤ m) bs
    → All (λ x. x.created_at ≤ n) bs
All-weaken m n [] le h = tt
All-weaken m n (x ∷ xs) le (k, ks) = (omega arith, All-weaken m n xs le ks)

insert_newest-IsNewestFirst :
    (b : Booking) (bs : List Booking) → IsNewestFirst bs → IsNewestFirst (insert_newest b bs)
unfolding insert_newest
insert_newest-IsNewestFirst b [] h = (tt, tt)
insert_newest-IsNewestFirst b (x ∷ xs) (h, hs) = elim (Bool-cases (leb x.created_at b.created_at)) [
  | inl later ↦
      let le : x.created_at ≤ b.created_at = ground (arith, later) in
      rw (later, insert_newest) ((le, All-weaken x.created_at b.created_at xs le h), (h, hs))
  | inr earlier ↦
      let le : b.created_at ≤ x.created_at = ground (arith, earlier) in
      rw (earlier, insert_newest)
        (insert_newest-All x.created_at b xs le h, insert_newest-IsNewestFirst b xs hs)
]

keep-insert_newest :
    (p : Booking → Bool) (b : Booking) (bs : List Booking)
    → length (keep p (insert_newest b bs)) ≡ length (keep p (b ∷ bs))
unfolding insert_newest
keep-insert_newest p b [] = refl
keep-insert_newest p b (x ∷ xs) = ground (arith, keep-insert_newest p b xs)

newest_first-IsNewestFirst : (bs : List Booking) → IsNewestFirst (newest_first bs)
unfolding newest_first
newest_first-IsNewestFirst [] = tt
newest_first-IsNewestFirst (b ∷ bs) =
    insert_newest-IsNewestFirst b (newest_first bs) (newest_first-IsNewestFirst bs)

keep-newest_first :
    (p : Booking → Bool) (bs : List Booking)
    → length (keep p (newest_first bs)) ≡ length (keep p bs)
unfolding newest_first
keep-newest_first p [] = refl
keep-newest_first p (b ∷ bs) =
    ground (arith, keep-insert_newest p b (newest_first bs), keep-newest_first p bs)

-- The sorted history of a guest runs from the newest booking to the oldest, and has as many
-- bookings that meet any test as the list it was made from.
pub newest_first_lem :
    (bs : List Booking)
    → IsNewestFirst (newest_first bs)
      × ((p : Booking → Bool) → length (keep p (newest_first bs)) ≡ length (keep p bs))
newest_first_lem bs = (newest_first-IsNewestFirst bs, λ p. keep-newest_first p bs)
