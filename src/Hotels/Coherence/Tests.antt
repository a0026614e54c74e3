-- ===== src/Hotels/Coherence/Tests.antt =====
-- A hotel whose card is cached: read, changed and deleted.
use booking_hotel.Runtime.Errors.{plain, err, Result, ok}
use booking_hotel.Prelude.{
  ◌∙◌, sym, ap, ◌≡◌, ℕ, zero, suc, true, none, some, [], ◌∷◌, JsString, refl, inl, inr, arith,
  Bool-cases, str_eq, str_eq→eq,
}
use mathlib.Core.Path.{subst}
use booking_hotel.Schema.{Hotel}
use booking_hotel.Runtime.World.{World}
use booking_hotel.Runtime.Memory.{memory, memory_prisma_laws}
use booking_hotel.Runtime.Redis.InMemory.{memory_redis_laws}
use booking_hotel.Runtime.Sample.{
  sample_config, sample_world, first_room_id, first_tables, second_tables, guest_id,
}
use booking_hotel.Cache.Keys.{hotel_key}
use booking_hotel.Cache.Service.{ready}
use booking_hotel.Sharding.Key.{bucket_of}
use booking_hotel.Sharding.Router.{shard_of}
use booking_hotel.Hotels.{UpdateHotel, find_one_cached, update, remove}
use booking_hotel.Hotels.Coherence.{Coherent, Current, hotel_key-injective}
use booking_hotel.Hotels.Coherence.Reads.{Fresh, find_one_cached-Fresh}
use booking_hotel.Hotels.Coherence.Writes.{update_remove-Coherent}

-- A text as a field: its units counted up, and a zero.
abbrev put : JsString → JsString → JsString
put [] rest = 0 ∷ rest
put (x ∷ s) rest = suc x ∷ put s rest

abbrev split : JsString → JsString × JsString
split [] = ([], [])
split (zero ∷ rest) = ([], rest)
split (suc x ∷ rest) = let (s, left) = split rest in (x ∷ s, left)

split-put : (s rest : JsString) → split (put s rest) ≡ (s, rest)
split-put [] rest = refl
split-put (x ∷ s) rest = rw (split-put s rest) refl

abbrev number : JsString → ℕ × JsString
number [] = (0, [])
number (x ∷ rest) = (x, rest)

abbrev stringify : Hotel → JsString
stringify h = put h.id (put h.name (put h.address (put h.city (h.rating ∷ h.created_at ∷ []))))

abbrev read_back : JsString → Hotel
read_back text =
    let (id, t1) = split text in
    let (name, t2) = split t1 in
    let (address, t3) = split t2 in
    let (city, t4) = split t3 in
    let (rating, t5) = number t4 in
    record {
      id = id;
      name = name;
      address = address;
      city = city;
      rating = rating;
      created_at = (number t5).0;
    }

-- A text without a first unit is refused.
abbrev parse : JsString → Result Hotel
parse [] = err (plain [])
parse (x ∷ text) = ok (read_back (x ∷ text))

read_back-stringify : (h : Hotel) → read_back (stringify h) ≡ h
read_back-stringify h =
    let t5 = h.rating ∷ h.created_at ∷ [] in
    let t4 = put h.city t5 in
    let t3 = put h.address t4 in
    let t2 = put h.name t3 in
    rw (split-put h.id t2, split-put h.name t3, split-put h.address t4, split-put h.city t5) refl

parse-put : (s rest : JsString) → parse (put s rest) ≡ ok (read_back (put s rest))
parse-put [] rest = refl
parse-put (x ∷ s) rest = refl

parse-stringify : (h : Hotel) → parse (stringify h) ≡ ok h
parse-stringify h =
    parse-put h.id (put h.name (put h.address (put h.city (h.rating ∷ h.created_at ∷ []))))
    ∙ ap ok (read_back-stringify h)

abbrev hotel : Hotel
hotel = record {
  id = first_room_id;
  name = guest_id;
  address = guest_id;
  city = guest_id;
  rating = 40;
  created_at = 0;
}

abbrev rename : UpdateHotel
rename = record { name = some first_room_id; address = none; city = none; rating = none }

-- The hotel lies on the first shard and its card in the cache.
abbrev warm_world : World memory
warm_world = record sample_world {
  shard_dbs = record first_tables { hotels = hotel ∷ [] } ∷ second_tables ∷ [];
  redis = (hotel_key first_room_id, stringify hotel) ∷ [];
}

cached : Current memory sample_config warm_world first_room_id hotel
unfolding shard_of bucket_of
cached = (record first_tables { hotels = hotel ∷ [] }, refl, inl refl, refl)

starts : Coherent memory sample_config parse warm_world
starts id text e = elim (Bool-cases (str_eq (hotel_key first_room_id) (hotel_key id))) [
  | inl same ↦
      let named =
        hotel_key-injective first_room_id id
          (str_eq→eq (hotel_key first_room_id) (hotel_key id) same) in
      let written : stringify hotel ≡ text = ground (arith, e, same) in
      (
        hotel,
        ap parse (sym written),
        subst (λ (x : JsString). Current memory sample_config warm_world x hotel) named cached,
      )
  | inr other ↦ absurd (ground (arith, e, other))
]

find_one_cached-Fresh_example :
    Fresh memory sample_config memory_prisma_laws refl stringify parse first_room_id
      (find_one_cached memory sample_config stringify parse first_room_id warm_world)
find_one_cached-Fresh_example =
    find_one_cached-Fresh memory sample_config memory_prisma_laws refl stringify parse first_room_id
      warm_world memory_redis_laws parse-stringify starts

is_ready : ready memory sample_config warm_world ≡ true
unfolding ready
is_ready = refl

update_remove-Coherent_example :
    Coherent memory sample_config parse
      (update memory sample_config first_room_id rename warm_world).1
    × Coherent memory sample_config parse (remove memory sample_config first_room_id warm_world).1
update_remove-Coherent_example =
    update_remove-Coherent memory sample_config memory_prisma_laws memory_redis_laws refl parse
      first_room_id 0 warm_world is_ready refl starts rename
