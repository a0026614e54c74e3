-- ===== src/Bookings/Requests.antt =====
-- The requests that change bookings, src/bookings/bookings.controller.ts: a handler hands its
-- parameters on, and what it throws becomes the response. PATCH is apart, since it keeps less. A
-- `Request` is a call of one of the handlers, and `serve` makes it.
pub mod Refinement
mod Tests
use booking_hotel.Prelude.{JsString, List, [], ◌∷◌}
use booking_hotel.Schema.{Booking}
use booking_hotel.Runtime.Platform.{Platform}
use booking_hotel.Runtime.World.{World, Action, Config}
use booking_hotel.Bookings.Service.{CreateBooking, create, cancel, remove}
use booking_hotel.Bookings.Relocation.{RelocateBooking, Relocated, relocate}

pub data Request : Type 0 where
  create_booking : CreateBooking → Request
  cancel_booking remove_booking : JsString → Request
  relocate_booking : JsString → RelocateBooking → Request

module _ (P : Platform) (c : Config) where
  unfoldable pub post_booking : CreateBooking → Action P Booking
  post_booking dto = create P c dto

  unfoldable pub patch_cancel : JsString → Action P Booking
  patch_cancel id = cancel P c id

  unfoldable pub post_relocate : JsString → RelocateBooking → Action P Relocated
  post_relocate id dto = relocate P c id dto

  unfoldable pub delete_booking : JsString → Action P Booking
  delete_booking id = remove P c id

  -- The state in which a request leaves the application, whatever it answers.
  unfoldable pub serve : Request → World P → World P
  unfolding post_booking patch_cancel post_relocate delete_booking
  serve (create_booking dto) w = (post_booking dto w).1
  serve (cancel_booking id) w = (patch_cancel id w).1
  serve (remove_booking id) w = (delete_booking id w).1
  serve (relocate_booking id dto) w = (post_relocate id dto w).1

  unfoldable pub serve_all : List Request → World P → World P
  serve_all [] w = w
  serve_all (r ∷ rs) w = serve_all rs (serve r w)
