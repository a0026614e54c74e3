-- ===== src/Rooms/Placement.antt =====
-- `create` of RoomsService: a new room on the shard of its hotel.
use booking_hotel.Sharding.Key.RoundTrip.{bucket_of-lt, bucket_of-id_in_bucket}
use booking_hotel.Cache.Service.{invalidate}
use mathlib.Core.Path.{subst}
use booking_hotel.Prelude.{
  map, ℕ, ◌≡◌, ◌∙◌, true, false, none, some, Option, List, [], ◌∷◌, ◌++◌, JsString, get_elem?, All,
  ap, arith, inl, inr, sym, refl,
}
use booking_hotel.Schema.{Hotel, Room, Tables}
use booking_hotel.Runtime.Errors.{Result, Result-cases, ok, err}
use booking_hotel.Runtime.Platform.{FillsRoom, In, Platform, PrismaLaws, Query, put_rooms}
use booking_hotel.Runtime.World.{World, Config, Action, pure, ◌>>=◌, ◌>>◌}
use booking_hotel.Cache.Service.Frame.{bump_version-Quiet, invalidate-Quiet}
use booking_hotel.Cache.Keys.{hotel_key, search_version}
use booking_hotel.Database.Router.{strong_read}
use booking_hotel.Hotels.{hotel_not_found, hotel_with}
use booking_hotel.Sharding.Key.{id_in_bucket, bucket_of}
use booking_hotel.Sharding.Router.{
  annotate_shard, child_id, for_key, read_shard, write_shard, shard_of,
}
use booking_hotel.Sharding.Router.Steps.{
  Settled, Settled-same, read_shard-Settled, write_shard-Settled,
}
use booking_hotel.Rooms.{
  room_exists, CreateRoom, create, invalidate_for_rooms, new_room, require_no_room, same_number,
  unique_ids,
}

module _ (P : Platform) (c : Config) where
  -- Invalidation changes no shard.
  pub invalidate_for_rooms-same :
      (ids : List JsString) (w : World P)
      → ((invalidate_for_rooms P c ids w).0 ≡ ok tt)
        × ((invalidate_for_rooms P c ids w).1.shard_dbs ≡ w.shard_dbs)
  unfolding invalidate_for_rooms
  invalidate_for_rooms-same ids w =
      let keys = map hotel_key (unique_ids ids []) in
      let first = invalidate-Quiet P c w keys in
      let first_returns = first.returns in
      let first_only = first.only in
      let w1 = (invalidate P c keys w).1 in
      let second = bump_version-Quiet P c w1 search_version in
      let second_returns = second.returns in
      let second_only = second.only in ground (arith, first_only.shard_dbs, second_only.shard_dbs)

module _ (P : Platform) (c : Config) (laws : PrismaLaws P.prisma) (on : c.sharded ≡ true)
    (dto : CreateRoom) (w : World P) (db : P.prisma.Db)
    (at : get_elem? w.shard_dbs (shard_of P c dto.hotel_id) ≡ some db) where
  abbrev k : ℕ
  k = shard_of P c dto.hotel_id

  abbrev t : Tables
  t = P.prisma.tables db

  -- What `create` has done by the end.
  abbrev pub Placed : Result Room × World P → Type 0
  Placed (ok r, w') =
      (hotel : Hotel) × In hotel t.hotels
      × (hotel_with dto.hotel_id hotel ≡ true)
      × All (λ x. same_number dto.hotel_id dto.room_number x ≡ false) t.rooms
      × ((id : JsString) × (bucket_of id ≡ bucket_of dto.hotel_id) × FillsRoom (new_room id dto) r)
      × Settled k (put_rooms (t.rooms ++ r ∷ []) t) w w'
  Placed (err e, w') = Settled k t w w'

  abbrev room_query : JsString → Query P.prisma.Db Room
  room_query id = P.prisma.room.create (new_room id dto)

  -- The part of `create` behind the checks.
  abbrev storing : Action P Room
  storing = do
    id ← child_id P c dto.hotel_id
    room ← write_shard P c k (room_query id)
    invalidate_for_rooms P c (room.hotel_id ∷ [])
    pure room

  storing-Placed :
      (hotel : Hotel) (w1 : World P)
      → In hotel t.hotels
      → hotel_with dto.hotel_id hotel ≡ true
      → All (λ x. same_number dto.hotel_id dto.room_number x ≡ false) t.rooms
      → Settled k t w w1
      → Placed (storing w1)
  unfolding child_id
  storing-Placed hotel w1 member named free s =
      let id = id_in_bucket (bucket_of dto.hotel_id) (P.js.uuid w1.next_uuid) in
      let w2 = (child_id P c dto.hotel_id w1).1 in
      let call = write_shard P c k (room_query id) w2 in
      let (db2, same2, s3, value, error) =
        write_shard-Settled P c on k (room_query id) t w w2 (Settled-same P k t w w1 w2 refl s) in
      elim (Result-cases call.0) [
        | inl (r, e) ↦
            let (quiet, same) = invalidate_for_rooms-same P c (r.hotel_id ∷ []) call.1 in
            let w4 = (invalidate_for_rooms P c (r.hotel_id ∷ []) call.1).1 in
            let eq : storing w1 ≡ (ok r, w4) = ground (arith, e, quiet) in
            let (fills, out) = laws.room.create_ok (new_room id dto) db2 r (value r e) in
            let tables = out ∙ ap (λ (tb : Tables). put_rooms (tb.rooms ++ r ∷ []) tb) same2 in
            let bucket =
              bucket_of-id_in_bucket (bucket_of dto.hotel_id) (P.js.uuid w1.next_uuid)
                (bucket_of-lt dto.hotel_id) in
            subst Placed (sym eq) (
              hotel,
              member,
              named,
              free,
              (id, bucket, fills),
              Settled-same P k (put_rooms (t.rooms ++ r ∷ []) t) w call.1 w4 same
                  (subst (λ (tb : Tables). Settled k tb w call.1) tables s3),
            )
        | inr (x, e) ↦
            let (y, f) = error x e in
            let eq : storing w1 ≡ (err x, call.1) = ground (arith, e) in
            subst Placed (sym eq) (
              subst (λ (tb : Tables). Settled k tb w call.1)
                (laws.room.create_err (new_room id dto) db2 y f ∙ same2) s3)
      ]

  abbrev hotel_lookup : Query P.prisma.Db (Option Hotel)
  hotel_lookup = P.prisma.hotel.find_unique (hotel_with dto.hotel_id)

  abbrev room_lookup : Query P.prisma.Db (Option Room)
  room_lookup = P.prisma.room.find_unique (same_number dto.hotel_id dto.room_number)

  -- The part of `create` behind the lookup of the hotel.
  abbrev checking : Action P Room
  checking w1 =
      (read_shard P c k room_lookup strong_read >>= λ existing.
      (require_no_room P c dto.room_number existing >> storing))
        w1

  checking-Placed :
      (hotel : Hotel) (w1 : World P)
      → In hotel t.hotels
      → hotel_with dto.hotel_id hotel ≡ true
      → Settled k t w w1
      → Placed (checking w1)
  checking-Placed hotel w1 member named s =
      let call = read_shard P c k room_lookup strong_read w1 in
      let p = same_number dto.hotel_id dto.room_number in
      let (s2, value) =
        read_shard-Settled P c on k room_lookup strong_read t w w1 (laws.room.find_unique_same p)
          s in
      elim (Result-cases call.0) [
        | inl (none, e) ↦
            let (db1, same, found) = value none e in
            let free = laws.room.find_unique_ok p db1 none found in
            let eq : checking w1 ≡ storing call.1 = ground (arith, e) in
            subst Placed (sym eq) (
              storing-Placed hotel call.1 member named
                (subst (λ (tb : Tables). All (λ x. p x ≡ false) tb.rooms) same free) s2)
        | inl (some r, e) ↦
            let eq : checking w1 ≡ (err (room_exists dto.room_number), call.1) =
              ground (arith, e) in
            subst Placed (sym eq) s2
        | inr (x, e) ↦
            let eq : checking w1 ≡ (err x, call.1) = ground (arith, e) in subst Placed (sym eq) s2
      ]

  -- With sharding and a client for the hotel's shard: creating a room succeeds only in a hotel
  -- that exists there and has no room of that number; the room then has the columns asked for and
  -- an identifier in the hotel's bucket, and is all that changes on any shard. Where `create`
  -- throws, no table has changed.
  pub create-Placed : Placed (create P c dto w)
  unfolding create for_key annotate_shard
  create-Placed =
      let w1 = (for_key P c dto.hotel_id w).1 in
      let start : Settled k t w w1 = record {
        db = db;
        here = at;
        tables = refl;
        others = λ j ne. refl;
      } in
      let call = read_shard P c k hotel_lookup strong_read w1 in
      let p = hotel_with dto.hotel_id in
      let (s, value) =
        read_shard-Settled P c on k hotel_lookup strong_read t w w1 (laws.hotel.find_unique_same p)
          start in
      elim (Result-cases call.0) [
        | inl (none, e) ↦
            let eq : create P c dto w ≡ (err (hotel_not_found dto.hotel_id), call.1) =
              ground (arith, e) in
            subst Placed (sym eq) s
        | inl (some hotel, e) ↦
            let (db1, same, found) = value (some hotel) e in
            let (member, named) = laws.hotel.find_unique_ok p db1 (some hotel) found in
            let eq : create P c dto w ≡ checking call.1 = ground (arith, e) in
            subst Placed (sym eq) (
              checking-Placed hotel call.1 (subst (λ (tb : Tables). In hotel tb.hotels) same member)
                named s)
        | inr (x, e) ↦
            let eq : create P c dto w ≡ (err x, call.1) = ground (arith, e) in
            subst Placed (sym eq) s
      ]
