-- ===== src/Hotels/Placement.antt =====
-- `create` of HotelsService and the lookup after it.
use booking_hotel.Sharding.Key.{bucket_for_new_hotel, id_in_bucket}
use mathlib.Core.Path.{subst}
use booking_hotel.Prelude.{
  suc, Bool, ℕ, ◌≡◌, ◌∙◌, true, false, none, some, Option, Option-cases, List, [], ◌∷◌, ◌++◌,
  JsString, get_elem?, All, ap, arith, inl, inr, sym, refl, str_eq_refl, str_eq→eq,
}
use booking_hotel.Schema.{Hotel, Tables}
use booking_hotel.Runtime.Errors.{Result, ok}
use booking_hotel.Runtime.Platform.{Finds, Platform, PrismaLaws, Query}
use booking_hotel.Runtime.World.{World, Config}
use booking_hotel.Database.Router.{Consistency}
use booking_hotel.Hotels.{CreateHotel, create, hotel_with, new_hotel}
use booking_hotel.Sharding.Router.{
  for_key, new_hotel_id, read_shard, write_shard, shard_of, writes, annotate_shard,
}
use booking_hotel.Sharding.Router.Isolation.{run_physical_missing}
use booking_hotel.Sharding.Router.Steps.{Settled, read_shard-Settled, write_shard-Settled}

All-last :
    (p : Hotel → Bool) (rows : List Hotel) (h : Hotel)
    → All (λ x. p x ≡ false) (rows ++ h ∷ [])
    → p h ≡ false
All-last p [] h (k, _) = k
All-last p (x ∷ rows) h (_, ks) = All-last p rows h ks

-- A lookup by the identifier of the last row finds a row.
Finds-last :
    (h : Hotel) (o : Option Hotel) (rows all : List Hotel)
    → all ≡ rows ++ h ∷ []
    → Finds (hotel_with h.id) all o
    → (found : Hotel) × (o ≡ some found) × (found.id ≡ h.id)
Finds-last h none rows all e finds =
    let gone =
      All-last (hotel_with h.id) rows h
        (subst (λ (l : List Hotel). All (λ x. hotel_with h.id x ≡ false) l) e finds) in
    absurd (ground (arith, gone, str_eq_refl h.id))
Finds-last h (some found) rows all e (_, named) = (found, refl, str_eq→eq found.id h.id named)

module _ (P : Platform) (c : Config) (laws : PrismaLaws P.prisma) (on : c.sharded ≡ true)
    (dto : CreateHotel) (w : World P) (h : Hotel) (made : (create P c dto w).0 ≡ ok h) where
  abbrev id : JsString
  id =
      id_in_bucket
        (bucket_for_new_hotel P.js.to_lower_case c.strategy (P.js.uuid w.next_uuid) dto.city)
        (P.js.uuid w.next_uuid)

  abbrev k : ℕ
  k = shard_of P c id

  abbrev mutation : Query P.prisma.Db Hotel
  mutation = P.prisma.hotel.create (new_hotel id dto)

  -- The state in which the write starts.
  abbrev w1 : World P
  w1 = (for_key P c id (record w { next_uuid = suc w.next_uuid })).1

  create-write : create P c dto w ≡ write_shard P c k mutation w1
  unfolding create new_hotel_id for_key
  create-write = refl

  w1-shard_dbs : w1.shard_dbs ≡ w.shard_dbs
  unfolding for_key annotate_shard
  w1-shard_dbs = refl

  -- With sharding, a hotel that has been created lies on the shard of its identifier: a lookup
  -- there that answers finds a hotel of that identifier; the created one has the name, the address
  -- and the city asked for.
  pub create-found :
      (consistency : Consistency) (o : Option Hotel)
      → (read_shard P c
          (shard_of P c h.id)
          (P.prisma.hotel.find_unique (hotel_with h.id))
          consistency
          (create P c dto w).1).0
        ≡ ok o
      → (found : Hotel) × (o ≡ some found)
        × (found.id ≡ h.id)
        × (h.name ≡ dto.name)
        × (h.address ≡ dto.address)
        × (h.city ≡ dto.city)
  create-found consistency o answer = elim (Option-cases (get_elem? w.shard_dbs k)) [
    | inl gone ↦
        let missing = run_physical_missing P c k writes mutation w1 (rw w1-shard_dbs gone) in
        absurd (unfold write_shard in ground (arith, create-write, missing, made, on))
    | inr (db, at) ↦
        let tb = P.prisma.tables db in
        let start : Settled k tb w w1 = record {
          db = db;
          here = rw w1-shard_dbs at;
          tables = refl;
          others = λ j ne. rw w1-shard_dbs refl;
        } in
        let (db2, _, s, value, _) = write_shard-Settled P c on k mutation tb w w1 start in
        let wrote : (write_shard P c k mutation w1).0 ≡ ok h =
          ap (λ (r : Result Hotel × World P). r.0) (sym create-write) ∙ made in
        let (fills, out) = laws.hotel.create_ok (new_hotel id dto) db2 h (value h wrote) in
        let s' =
          subst (λ (r : Result Hotel × World P). Settled k (P.prisma.tables (mutation db2).1) w r.1)
            (sym create-write) s in
        let p = hotel_with h.id in
        let answer' =
          subst
            (λ (x : JsString).
              (read_shard P c (shard_of P c x) (P.prisma.hotel.find_unique p) consistency
                (create P c dto w).1).0
              ≡ ok o)
            fills.id answer in
        let (_, read_value) =
          read_shard-Settled P c on k (P.prisma.hotel.find_unique p) consistency
            (P.prisma.tables (mutation db2).1) w (create P c dto w).1
            (laws.hotel.find_unique_same p) s' in
        let (db3, same3, looked) = read_value o answer' in
        let (found, is_some, same_id) =
          Finds-last h o (P.prisma.tables db2).hotels (P.prisma.tables db3).hotels
            (ap (λ (x : Tables). x.hotels) (same3 ∙ out))
            (laws.hotel.find_unique_ok p db3 o looked) in
        (found, is_some, same_id, fills.name, fills.address, fills.city)
  ]
