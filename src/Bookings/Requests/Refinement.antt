-- ===== src/Bookings/Requests/Refinement.antt =====
-- Requests (src/bookings/bookings.controller.ts) and the ledger of bookings, one by one and in
-- sequence.
use booking_hotel.Bookings.Requests.{
  post_booking, patch_cancel, post_relocate, delete_booking, Request, create_booking,
  cancel_booking, remove_booking, relocate_booking, serve, serve_all,
}
use booking_hotel.Bookings.Ledger.Shards.{
  Advances, AllValid, Advances-same, Advances-then, Advances-Valid,
}
use booking_hotel.Bookings.Ledger.Stays.{create-Advances, cancel-Advances, remove-Advances}
use booking_hotel.Bookings.Ledger.Relocating.{relocate-Advances}
use booking_hotel.Prelude.{◌≡◌, true, List, [], ◌∷◌, refl}
use booking_hotel.Runtime.Platform.{Platform, PrismaLaws}
use booking_hotel.Runtime.World.{World, Config}

module _ (P : Platform) (c : Config) (laws : PrismaLaws P.prisma) (on : c.sharded ≡ true) where
  -- With sharding and valid tables: whatever the nodes reject, and whether it succeeds or is
  -- refused, a request to create, cancel, remove or relocate a booking takes the table of every
  -- shard there by moves of the ledger: bookings in free rooms under new identifiers, ends of
  -- active bookings, pending reservations that get an active status, and deletions.
  pub serve_refines : (r : Request) (w : World P) → AllValid w → Advances w (serve P c r w)
  unfolding serve post_booking patch_cancel post_relocate delete_booking
  serve_refines (create_booking dto) w v = create-Advances P c laws on dto w
  serve_refines (cancel_booking id) w v = cancel-Advances P c laws on id w v
  serve_refines (remove_booking id) w v = remove-Advances P c laws on id w
  serve_refines (relocate_booking id dto) w v = relocate-Advances P c laws on id dto w v

  serve_all_refines :
      (rs : List Request) (w : World P) → AllValid w → Advances w (serve_all P c rs w)
  unfolding serve_all
  serve_all_refines [] w v = Advances-same w w refl
  serve_all_refines (r ∷ rs) w v =
      let w1 = serve P c r w in
      let step = serve_refines r w v in
      Advances-then w w1 (serve_all P c rs w1) step
        (serve_all_refines rs w1 (Advances-Valid w w1 step v))

  -- With sharding: where every shard's table is valid (no two active bookings of a room overlap, no
  -- two bookings share an identifier, each stay ends after it begins), so is every shard's table
  -- after any sequence of requests to create, cancel, remove and relocate bookings, whatever the
  -- nodes reject on the way.
  pub serve_all-AllValid :
      (rs : List Request) (w : World P) → AllValid w → AllValid (serve_all P c rs w)
  serve_all-AllValid rs w v = Advances-Valid w (serve_all P c rs w) (serve_all_refines rs w v) v
