-- ===== src/Guests/Deletion.antt =====
-- `remove` of GuestsService: no guest who has a booking on any shard is deleted.
use booking_hotel.Prelude.{ℕ, ◌≡◌, JsString, some, get_elem?, length, keep}
use booking_hotel.Runtime.Platform.{Platform, PrismaLaws}
use booking_hotel.Runtime.World.{World, Config}
use booking_hotel.Guests.{booked_by}

module _ (P : Platform) (c : Config) (laws : PrismaLaws P.prisma) where
  -- The guest has no booking on shard `k`.
  abbrev pub Unbooked : JsString → World P → ℕ → Type 0
  Unbooked id w k =
      (db : P.prisma.Db) × (get_elem? w.shard_dbs k ≡ some db)
      × (length (keep (booked_by id) (P.prisma.tables db).bookings) ≡ 0)
