-- ===== src/Rooms/Search.antt =====
-- `search` of RoomsService: which rooms it finds, on one shard or on all.
use mathlib.Core.Path.{subst}
use booking_hotel.Prelude.{
  ◌≤◌, ◌⊎◌, ◌≢◌, ◌&&◌, JsString, All, any, Bool, Bool-cases, Option, zero, suc, [], ◌∷◌, false,
  refl, str_eq, str_eq_refl, str_eq→eq, ℕ, ◌≡◌, ◌<◌, true, none, some, List, Option-cases,
  get_elem?, arith, inl, inr, sym, ◌∙◌,
}
use booking_hotel.Schema.{Booking, Hotel, Room, Tables, is_active}
use booking_hotel.Runtime.Errors.{ok}
use booking_hotel.Runtime.Platform.{Platform, PrismaLaws, In}
use booking_hotel.Runtime.World.{World, Config}
use booking_hotel.Cache.Keys.{SearchParams}
use booking_hotel.Database.Router.{Consistency}
use booking_hotel.Sharding.Router.{read_shard, reads}
use booking_hotel.Sharding.Router.Isolation.{answer_of, answer_of-ok, run_physical-nodes}
use booking_hotel.Sharding.Router.Merge.{fan_out_list-members}
use booking_hotel.Rooms.{fits_guests, lies_in, occupies, matches, search, search_query, local_shard}

-- Nobody sleeps in the room between the two instants on this booking.
abbrev pub LeavesFree : ℕ → ℕ → Room → Booking → Type 0
LeavesFree check_in check_out r b =
    b.room_id ≡ r.id
    → is_active b.status ≡ true
    → (check_out ≤ b.check_in_date) ⊎ (b.check_out_date ≤ check_in)

-- What a guest asks of a room, among the tables of its shard.
pub record Suits (check_in check_out : ℕ) (dto : SearchParams) (t : Tables) (r : Room)
    : Type 0 where
  pub capacity : (n : ℕ) → dto.guests ≡ some n → n ≤ r.capacity
  pub city :
      (name : JsString)
      → dto.city ≡ some name
      → name ≢ []
      → (h : Hotel) × In h t.hotels × (h.id ≡ r.hotel_id) × (h.city ≡ name)
  pub free : All (LeavesFree check_in check_out r) t.bookings

any-In :
    {A : Type 0} (p : A → Bool) (xs : List A) → any p xs ≡ true → (x : A) × In x xs × (p x ≡ true)
any-In p [] e = absurd (ground arith)
any-In p (x ∷ xs) e = elim (Bool-cases (p x)) [
  | inl here ↦ (x, inl refl, here)
  | inr other ↦ let (y, m, h) = any-In p xs (ground (arith, e, other)) in (y, inr m, h)
]

unoccupied :
    (check_in check_out : ℕ) (r : Room) (bs : List Booking)
    → any (occupies check_in check_out r) bs ≡ false
    → All (LeavesFree check_in check_out r) bs
unoccupied check_in check_out r [] e = tt
unoccupied check_in check_out r (b ∷ bs) e = (
  λ same active.
      let named : str_eq b.room_id r.id ≡ true = rw same (str_eq_refl r.id) in
      ground (arith, e, named, active),
  unoccupied check_in check_out r bs (ground (arith, e)),
)

fits_guests-capacity :
    (guests : Option ℕ) (r : Room) (n : ℕ)
    → fits_guests guests r ≡ true
    → guests ≡ some n
    → n ≤ r.capacity
fits_guests-capacity none r n e q = absurd (ground arith)
fits_guests-capacity (some zero) r n e q = ground (arith, q)
fits_guests-capacity (some (suc m)) r n e q = ground (arith, q, e)

lies_in-hotel :
    (wish : Option JsString) (t : Tables) (r : Room) (name : JsString)
    → lies_in wish t r ≡ true
    → wish ≡ some name
    → name ≢ []
    → (h : Hotel) × In h t.hotels × (h.id ≡ r.hotel_id) × (h.city ≡ name)
lies_in-hotel none t r name e q ne = absurd (ground arith)
lies_in-hotel (some []) t r name e q ne = absurd (ne (ground (arith, q)))
lies_in-hotel (some (x ∷ s)) t r name e q ne =
    let (h, member, both) =
      any-In (λ (h : Hotel). str_eq h.id r.hotel_id && str_eq h.city (x ∷ s)) t.hotels e in
    let same : (x ∷ s) ≡ name = ground (arith, q) in
    (
      h,
      member,
      str_eq→eq h.id r.hotel_id (ground (arith, both)),
      str_eq→eq h.city (x ∷ s) (ground (arith, both)) ∙ same,
    )

matches-Suits :
    (check_in check_out : ℕ) (dto : SearchParams) (t : Tables) (r : Room)
    → matches check_in check_out dto t r ≡ true
    → Suits check_in check_out dto t r
unfolding matches
matches-Suits check_in check_out dto t r e = record {
  capacity = λ n q. fits_guests-capacity dto.guests r n (ground (arith, e)) q;
  city = λ name q ne. lies_in-hotel dto.city t r name (ground (arith, e)) q ne;
  free = unoccupied check_in check_out r t.bookings (ground (arith, e));
}

module _ (P : Platform) (c : Config) (laws : PrismaLaws P.prisma) (on : c.sharded ≡ true)
    (dto : SearchParams) (consistency : Consistency) (w : World P) (rooms : List Room)
    (found : (search P c dto consistency w).0 ≡ ok rooms) where
  -- The room lies on a shard and meets the conditions of the search there.
  abbrev pub Available : Room → Type 0
  Available x =
      (k : ℕ) × (db : P.prisma.Db) × (get_elem? w.shard_dbs k ≡ some db)
      × In x (P.prisma.tables db).rooms
      × Suits (P.js.date_ms dto.check_in) (P.js.date_ms dto.check_out) dto (P.prisma.tables db) x

  answer-Available :
      (k : ℕ) (a : List Room) (x : Room)
      → answer_of P c (search_query P c dto) w k ≡ ok a
      → In x a
      → Available x
  answer-Available k a x e m =
      let (db, here, answered) = answer_of-ok P c (search_query P c dto) w k a e in
      let p = matches (P.js.date_ms dto.check_in) (P.js.date_ms dto.check_out) dto in
      let (member, meets) = (laws.room.find_many_ok p db a answered x).0 m in
      (
        k,
        db,
        here,
        member,
        matches-Suits (P.js.date_ms dto.check_in) (P.js.date_ms dto.check_out) dto
            (P.prisma.tables db) x meets,
      )

  -- With sharding, every room that a search returns is a room of a shard with the capacity asked
  -- for, in a hotel of the city asked for, with no active booking that overlaps the dates.
  pub search-Available : (x : Room) → In x rooms → Available x
  search-Available x m = elim (Option-cases (local_shard P c dto.city)) [
    | inr (k, e) ↦
        let (r, _, _, _, _) = run_physical-nodes P c k reads (search_query P c dto) w in
        let same : answer_of P c (search_query P c dto) w k ≡ ok rooms =
          sym r ∙ (unfold search read_shard in ground (arith, found, e, on)) in
        answer-Available k rooms x same m
    | inl e ↦
        let (merged, returned, members) =
          fan_out_list-members P c (search_query P c dto) consistency w on in
        let same : rooms ≡ merged = unfold search in ground (arith, found, e, returned) in
        let (k, _, a, answered, there) = (members x).0 (subst (In x) same m) in
        answer-Available k a x answered there
  ]

  -- With sharding, a search that is not confined to the shard of a city and returns has every room
  -- of every shard that answers which its query matches.
  pub search_matching :
      (k : ℕ) (db : P.prisma.Db) (a : List Room) (x : Room)
      → local_shard P c dto.city ≡ none
      → k < c.shard_count
      → get_elem? w.shard_dbs k ≡ some db
      → answer_of P c (search_query P c dto) w k ≡ ok a
      → In x (P.prisma.tables db).rooms
      → matches (P.js.date_ms dto.check_in) (P.js.date_ms dto.check_out) dto (P.prisma.tables db) x
        ≡ true
      → In x rooms
  search_matching k db a x e lt here answered member meets =
      let (merged, returned, members) =
        fan_out_list-members P c (search_query P c dto) consistency w on in
      let same : merged ≡ rooms = unfold search in ground (arith, found, e, returned) in
      let p = matches (P.js.date_ms dto.check_in) (P.js.date_ms dto.check_out) dto in
      let (db', here', run) = answer_of-ok P c (search_query P c dto) w k a answered in
      let q : db' ≡ db = ground (arith, here, here') in
      let in_a : In x a = (laws.room.find_many_ok p db' a run x).1 (
        subst (λ (d : P.prisma.Db). In x (P.prisma.tables d).rooms) (sym q) member,
        subst (λ (d : P.prisma.Db). p (P.prisma.tables d) x ≡ true) (sym q) meets,
      ) in
      subst (In x) same ((members x).1 (k, lt, a, answered, in_a))
