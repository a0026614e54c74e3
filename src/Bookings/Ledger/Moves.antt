-- ===== src/Bookings/Ledger/Moves.antt =====
-- The moves of the ledger that `relocate` makes (src/bookings/bookings.service.ts): inside a
-- shard, and between two shards step by step.
use booking_hotel.Bookings.Ledger.Rows.{All-every, All-In, All-change, All-map}
use mathlib.Core.Path.{subst}
use booking_hotel.Bookings.Relocation.Local.{
  relocate_local-LocallyMoved, moved_tables, LocallyMoved, Replaces,
}
use booking_hotel.Runtime.Errors.{err, ok, Result}
use booking_hotel.Bookings.Ledger.Invariant.{Valid}
use booking_hotel.Schema.{
  same_status, cancelled, pending, is_active, BookingStatus, Tables, Room, Booking,
}
use booking_hotel.Bookings.Reservation.{new_booking, not_excluded, overlaps, Reservation}
use booking_hotel.Bookings.Relocation.Ends.{
  moved, not_confirmed, left_over, undone, Made, changed, nothing_reserved, SagaEnd, Frame,
}
use booking_hotel.Bookings.Ledger.Stays.{DistinctIds-only}
use booking_hotel.Bookings.Ledger.Shards.{Advances-one, Advances, Held, AllValid}
use booking_hotel.Bookings.Ledger.{Sound, ◌⟶*◌, here, next, book, end_booking, settle, one_move}
use booking_hotel.Bookings.Service.{by_id, with_status}
use booking_hotel.Bookings.Relocation.{
  relocate_local, Relocated, is_active_original, is_pending_reservation,
}
use booking_hotel.Prelude.{
  ◌∙◌, str_eq_refl, str_eq→eq, if◌then◌else◌, sym, inr, ap, All-concat, refl, inl, [], arith,
  Bool-cases, none, ◌∷◌, some, ◌++◌, All, Bool, false, List, str_eq, ◌≡◌, true, ℕ, JsString,
}
use booking_hotel.Runtime.Platform.{FillsBooking, In, change, Platform, PrismaLaws}
use booking_hotel.Runtime.World.{World, Config}

excluded_only : (id i : JsString) → str_eq i id ≡ false → not_excluded (some id) i ≡ true
excluded_only [] i e = refl
excluded_only (x ∷ id) i e = ground (arith, e)

-- A room that is free but for one booking is free when that booking has ended.
free_after :
    (id : JsString) (d : Reservation) (bs : List Booking)
    → All (λ x. overlaps d (some id) x ≡ false) bs
    → All (λ x. overlaps d none x ≡ false) (change (by_id id) (with_status cancelled) bs)
unfolding overlaps
free_after id d [] h = tt
free_after id d (b ∷ bs) (h, hs) = elim (Bool-cases (by_id id b)) [
  | inl e ↦ rw e (ground arith, free_after id d bs hs)
  | inr e ↦
      let out = excluded_only id b.id e in rw e (ground (arith, h, out), free_after id d bs hs)
]

change_append :
    (p : Booking → Bool) (s : BookingStatus) (bs : List Booking) (b : Booking)
    → p b ≡ false
    → change p (with_status s) (bs ++ b ∷ []) ≡ change p (with_status s) bs ++ b ∷ []
change_append p s [] b e = rw e refl
change_append p s (x ∷ bs) b e =
    ap (λ l. (if p x then with_status s x else x) ∷ l) (change_append p s bs b e)

-- The row that takes the place of `id` has another identifier.
other_id :
    (id : JsString) (d : Reservation) (room : Room) (old b : Booking) (bs : List Booking)
    → In old bs
    → by_id id old ≡ true
    → All (λ x. str_eq x.id d.id ≡ false) bs
    → FillsBooking (new_booking d room) b
    → by_id id b ≡ false
other_id id d room old b bs member named fresh fills = elim (Bool-cases (by_id id b)) [
  | inr e ↦ e
  | inl e ↦
      let p = str_eq→eq old.id id named in
      let p' = str_eq→eq b.id id e in
      let apart = All-In (λ x. str_eq x.id d.id ≡ false) bs old fresh member in
      let q = fills.id in absurd (ground (arith, apart, p, p', q, str_eq_refl id))
]

-- A test for the new identifier picks the new row alone.
new_row_only :
    (q : Booking → Type 0) (d : Reservation) (p : Booking → Bool) (b : Booking) (bs : List Booking)
    → ((x : Booking) → p x ≡ true → str_eq x.id d.id ≡ true)
    → All (λ x. str_eq x.id d.id ≡ false) bs
    → q b
    → All (λ x. p x ≡ true → q x) (bs ++ b ∷ [])
new_row_only q d p b bs picks fresh h =
    All-concat (λ x. p x ≡ true → q x) bs b
      (All-map (λ x apart e. absurd (ground (arith, apart, picks x e))) bs fresh) (λ e. h)

pending_is_active : (s : BookingStatus) → same_status s pending ≡ true → is_active s ≡ true
pending_is_active s e = ground (arith, e)

module _ (P : Platform) (c : Config) (laws : PrismaLaws P.prisma) (on : c.sharded ≡ true) where
  -- The move inside one shard.
  local_moves :
      (id : JsString) (d : Reservation) (old b : Booking) (t : Tables)
      → Sound d
      → Valid t
      → In old t.bookings
      → by_id id old ≡ true
      → is_active old.status ≡ true
      → Replaces P c laws id d t b
      → t ⟶* moved_tables P c laws id d t b
  local_moves id d old b t sound v member named active (room, in_rooms, known, free, fresh, fills) =
      let other = other_id id d room old b t.bookings member named fresh fills in
      let ended = changed (by_id id) cancelled t in
      let made : Made d ended b = (
        room,
        in_rooms,
        known,
        fills,
        free_after id d t.bookings free,
        All-change (λ x. str_eq x.id d.id ≡ false) (by_id id) cancelled t.bookings (λ x e. e) fresh,
      ) in
      next
        (end_booking id (by_id id) (λ x e. e)
          (DistinctIds-only id old t.bookings v.distinct member named active))
        (subst (λ (u : Tables). ended ⟶* u)
          (ap (λ (l : List Booking). record t { bookings = l })
            (sym (change_append (by_id id) cancelled t.bookings b other)))
          (one_move (book d b sound made)))

  pub relocate_local-Advances :
      (source : ℕ) (id : JsString) (d : Reservation) (old : Booking) (w : World P)
      (db : P.prisma.Db)
      → Held w source db
      → Sound d
      → AllValid w
      → In old (P.prisma.tables db).bookings
      → by_id id old ≡ true
      → is_active old.status ≡ true
      → Advances w (relocate_local P c source id d w).1
  relocate_local-Advances source id d old w db at sound v member named active =
      moved (relocate_local P c source id d w)
        (relocate_local-LocallyMoved P c laws id d source w db on at)
    where
      moved :
          (out : Result Relocated × World P)
          → LocallyMoved P c laws id d source (P.prisma.tables db) w out
          → Advances w out.1
      moved (ok r, w') (made, s) =
          Advances-one w w' source db s.db at s.here
            (subst (λ (u : Tables). P.prisma.tables db ⟶* u) (sym s.tables)
              (local_moves id d old r.booking (P.prisma.tables db) sound (v source db at) member
                named active made))
            s.others
      moved (err e, w') s =
          Advances-one w w' source db s.db at s.here
            (subst (λ (u : Tables). P.prisma.tables db ⟶* u) (sym s.tables) here) s.others

  -- The moves of the two shards, whichever of its five ends the saga has.
  pub saga_moves :
      (f : Frame) (id : JsString) (d : Reservation) (final : BookingStatus) (from to : JsString)
      (out : Result Relocated)
      → Sound d
      → d.status ≡ pending
      → is_active final ≡ true
      → SagaEnd f id d final from to out
      → (f.source ⟶* f.source') × (f.target ⟶* f.target')
  saga_moves f id d final from to out sound waits active (nothing_reserved e q s t) = (
    subst (λ (u : Tables). f.source ⟶* u) (sym s) here,
    subst (λ (u : Tables). f.target ⟶* u) (sym t) here,
  )
  saga_moves f id d final from to out sound waits active (undone b steps e q made _ s t) =
      let (room, _, _, fills, _, fresh) = made in
      (
        subst (λ (u : Tables). f.source ⟶* u) (sym s) here,
        subst (λ (u : Tables). f.target ⟶* u) (sym t)
            (next (book d b sound made) (
              one_move (
                end_booking b.id (is_pending_reservation b.id) (λ x e. ground (arith, e))
                  (All-every (λ x e. pending_is_active x.status (ground (arith, e)))
                    (f.target.bookings ++ b ∷ []))))),
      )
  saga_moves f id d final from to out sound waits active (left_over b steps e x q made _ s t) = (
    subst (λ (u : Tables). f.source ⟶* u) (sym s) here,
    subst (λ (u : Tables). f.target ⟶* u) (sym t) (one_move (book d b sound made)),
  )
  saga_moves f id d final from to out sound waits active (not_confirmed b e q made _ _ s t) = (
    subst (λ (u : Tables). f.source ⟶* u) (sym s)
        (one_move (
          end_booking id (is_active_original id) (λ x e. ground (arith, e))
            (All-every (λ x e. ground (arith, e)) f.source.bookings))),
    subst (λ (u : Tables). f.target ⟶* u) (sym t) (one_move (book d b sound made)),
  )
  saga_moves f id d final from to out sound waits active (moved b r q made some_row s t) =
      let (room, _, _, fills, _, fresh) = made in
      (
        subst (λ (u : Tables). f.source ⟶* u) (sym s)
            (one_move (
              end_booking id (is_active_original id) (λ x e. ground (arith, e))
                (All-every (λ x e. ground (arith, e)) f.source.bookings))),
        subst (λ (u : Tables). f.target ⟶* u) (sym t)
            (next (book d b sound made) (
              one_move (
                settle b.id (by_id b.id) final (λ x e. e) active
                  (new_row_only (λ x. x.status ≡ pending) d (by_id b.id) b f.target.bookings
                    (λ x e. ground (arith, e, fills.id)) fresh (fills.status ∙ waits))))),
      )
