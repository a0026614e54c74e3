-- ===== src/Rooms/Completeness.antt =====
-- The rooms that `search` of src/rooms/rooms.service.ts may not leave out.
use booking_hotel.Prelude.{
  ◌≡◌, ◌≢◌, ◌≤◌, ◌<◌, ◌&&◌, ◌∙◌, ℕ, zero, suc, Bool, true, false, any, All, Option, none, some,
  List, [], ◌∷◌, JsString, str_eq, str_eq→eq, str_eq_refl, get_elem?, inl, inr, arith, refl, sym,
  ap, Bool-cases,
}
use booking_hotel.Schema.{Booking, Hotel, Room, Tables, is_active}
use booking_hotel.Runtime.Errors.{ok}
use booking_hotel.Runtime.Platform.{Platform, PrismaLaws, In}
use booking_hotel.Runtime.World.{World, Config}
use booking_hotel.Cache.Keys.{SearchParams}
use booking_hotel.Database.Router.{Consistency}
use booking_hotel.Sharding.Router.Isolation.{answer_of}
use booking_hotel.Rooms.{fits_guests, lies_in, occupies, matches, search, search_query, local_shard}
use booking_hotel.Rooms.Search.{LeavesFree, Suits, search_matching}

In-any : {A : Type 0} (p : A → Bool) (xs : List A) (x : A) → In x xs → p x ≡ true → any p xs ≡ true
In-any p [] x m h = absurd m
In-any p (y ∷ xs) x (inl same) h =
    let here : p y ≡ true = ap p (sym same) ∙ h in ground (arith, here)
In-any p (y ∷ xs) x (inr later) h = ground (arith, In-any p xs x later h)

free_unoccupied :
    (check_in check_out : ℕ) (r : Room) (bs : List Booking)
    → All (LeavesFree check_in check_out r) bs
    → any (occupies check_in check_out r) bs ≡ false
free_unoccupied check_in check_out r [] h = refl
free_unoccupied check_in check_out r (b ∷ bs) (h, hs) =
    let rest = free_unoccupied check_in check_out r bs hs in
    elim (Bool-cases (str_eq b.room_id r.id && is_active b.status)) [
      | inr other ↦ ground (arith, rest, other)
      | inl both ↦
          let q : b.room_id ≡ r.id = str_eq→eq b.room_id r.id (ground (arith, both)) in
          let active : is_active b.status ≡ true = ground (arith, both) in
          let apart = h q active in ground (arith, rest, both, apart)
    ]

capacity_fits :
    (guests : Option ℕ) (r : Room)
    → ((n : ℕ) → guests ≡ some n → n ≤ r.capacity)
    → fits_guests guests r ≡ true
capacity_fits none r h = refl
capacity_fits (some zero) r h = refl
capacity_fits (some (suc n)) r h = let le = h (suc n) refl in ground (arith, le)

hotel-lies_in :
    (wish : Option JsString) (t : Tables) (r : Room)
    → ((name : JsString)
        → wish ≡ some name
        → name ≢ []
        → (h : Hotel) × In h t.hotels × (h.id ≡ r.hotel_id) × (h.city ≡ name))
    → lies_in wish t r ≡ true
hotel-lies_in none t r h = refl
hotel-lies_in (some []) t r h = refl
hotel-lies_in (some (x ∷ s)) t r h =
    let (hotel, member, at, named) = h (x ∷ s) refl (λ q. absurd (ground (arith, q))) in
    In-any (λ (g : Hotel). str_eq g.id r.hotel_id && str_eq g.city (x ∷ s)) t.hotels hotel member
      (rw (at, named) (ground (arith, str_eq_refl r.hotel_id, str_eq_refl (x ∷ s))))

Suits-matches :
    (check_in check_out : ℕ) (dto : SearchParams) (t : Tables) (r : Room)
    → Suits check_in check_out dto t r
    → matches check_in check_out dto t r ≡ true
unfolding matches
Suits-matches check_in check_out dto t r h =
    let fits = capacity_fits dto.guests r h.capacity in
    let lies = hotel-lies_in dto.city t r h.city in
    let free = free_unoccupied check_in check_out r t.bookings h.free in
    ground (arith, fits, lies, free)

module _ (P : Platform) (c : Config) (laws : PrismaLaws P.prisma) (on : c.sharded ≡ true)
    (dto : SearchParams) (consistency : Consistency) (w : World P) (rooms : List Room)
    (found : (search P c dto consistency w).0 ≡ ok rooms) where
  -- With sharding, a search that is not confined to the shard of a city and returns has every room
  -- of every shard that answers which has the capacity asked for, lies in a hotel of the city asked
  -- for and has no active booking that overlaps the dates.
  pub search_complete :
      (k : ℕ) (db : P.prisma.Db) (a : List Room) (x : Room)
      → local_shard P c dto.city ≡ none
      → k < c.shard_count
      → get_elem? w.shard_dbs k ≡ some db
      → answer_of P c (search_query P c dto) w k ≡ ok a
      → In x (P.prisma.tables db).rooms
      → Suits (P.js.date_ms dto.check_in) (P.js.date_ms dto.check_out) dto (P.prisma.tables db) x
      → In x rooms
  search_complete k db a x e lt here answered member suits =
      search_matching P c laws on dto consistency w rooms found k db a x e lt here answered member (
        Suits-matches (P.js.date_ms dto.check_in) (P.js.date_ms dto.check_out) dto
          (P.prisma.tables db) x suits)
