-- ===== src/Bookings/Relocation/Ends.antt =====
-- The states in which a relocation between two shards can end.
use booking_hotel.Sharding.Router.{name_of}
use booking_hotel.Bookings.Reservation.{overlaps, new_booking, Reservation}
use booking_hotel.Bookings.Relocation.{
  is_active_original, is_pending_reservation, a_step, aborted, Relocated,
}
use booking_hotel.Bookings.Service.{by_id, with_status}
use booking_hotel.Runtime.Platform.{change, Platform, PrismaLaws, In, FillsBooking}
use booking_hotel.Runtime.Errors.{
  Error, Result, ok, err, message, failed, compensated, c1_compensate, t1_reserve, SagaStep,
}
use booking_hotel.Runtime.World.{World, Config}
use booking_hotel.Prelude.{
  refl, inr, inl, ◌<◌, Bool-cases, false, keep, length, arith, ◌∙◌, All, ◌≢◌, ap, List, get_elem?,
  Bool, true, str_eq, ℕ, ◌≡◌, JsString, none, some, [], ◌∷◌, ◌++◌,
}
use booking_hotel.Schema.{BookingStatus, Booking, cancelled, pending, Tables, Room}

-- The tables of the two shards before and after, and the result.
pub record Frame : Type 0 where
  pub source : Tables
  pub target : Tables
  pub source' : Tables
  pub target' : Tables

abbrev pub with_booking : Tables → Booking → Tables
with_booking t b = record t { bookings = t.bookings ++ b ∷ [] }

abbrev pub changed : (Booking → Bool) → BookingStatus → Tables → Tables
changed p s t = record t { bookings = change p (with_status s) t.bookings }

-- A booking that `reserve` made for `d` on a shard with the tables `t`: the room exists, no active
-- booking of it overlaps the dates, no row has its identifier, and the row has the columns asked for.
abbrev pub Made : Reservation → Tables → Booking → Type 0
Made d t b =
    (room : Room) × In room t.rooms
    × (str_eq room.id d.room_id ≡ true)
    × FillsBooking (new_booking d room) b
    × All (λ x. overlaps d none x ≡ false) t.bookings
    × All (λ x. str_eq x.id d.id ≡ false) t.bookings

-- How a saga can end, for the booking `id`, the reservation `d` and the status to restore.
pub data SagaEnd (f : Frame) (id : JsString) (d : Reservation) (final : BookingStatus)
    (from to : JsString) (out : Result Relocated) : Type 0 where
  -- T1 failed: nothing has changed on either shard.
  nothing_reserved :
      (e : Error)
      → out ≡ err (aborted (a_step t1_reserve to failed (message e) ∷ []) e from to)
      → f.source' ≡ f.source
      → f.target' ≡ f.target
      → SagaEnd f id d final from to out
  -- T2 failed and was compensated: the old booking stands, the reservation, which was pending, is
  -- cancelled.
  undone :
      (created : Booking) (steps : List SagaStep) (e : Error)
      → out ≡ err (aborted (steps ++ a_step c1_compensate to compensated created.id ∷ []) e from to)
      → Made d f.target created
      → created.status ≡ pending
      → f.source' ≡ f.source
      → f.target'
        ≡ changed (is_pending_reservation created.id) cancelled (with_booking f.target created)
      → SagaEnd f id d final from to out
  -- T2 and the compensation failed: the old booking stands, and so does the reservation; the steps say so.
  left_over :
      (created : Booking) (steps : List SagaStep) (e x : Error)
      → out ≡ err (aborted (steps ++ a_step c1_compensate to failed (message x) ∷ []) e from to)
      → Made d f.target created
      → created.status ≡ pending
      → f.source' ≡ f.source
      → f.target' ≡ with_booking f.target created
      → SagaEnd f id d final from to out
  -- T3 failed: the old booking, which was active, is cancelled, the new one is still pending.
  not_confirmed :
      (created : Booking) (e : Error)
      → out ≡ err e
      → Made d f.target created
      → created.status ≡ pending
      → 0 < length (keep (is_active_original id) f.source.bookings)
      → f.source' ≡ changed (is_active_original id) cancelled f.source
      → f.target' ≡ with_booking f.target created
      → SagaEnd f id d final from to out
  moved :
      (created : Booking) (r : Relocated)
      → out ≡ ok r
      → Made d f.target created
      → 0 < length (keep (is_active_original id) f.source.bookings)
      → f.source' ≡ changed (is_active_original id) cancelled f.source
      → f.target' ≡ changed (by_id created.id) final (with_booking f.target created)
      → SagaEnd f id d final from to out

-- Where no row is meant, an update changes nothing.
pub change_none :
    (p : Booking → Bool) (g : Booking → Booking) (rows : List Booking)
    → length (keep p rows) ≡ 0
    → change p g rows ≡ rows
change_none p g [] h = refl
change_none p g (b ∷ rows) h = elim (Bool-cases (p b)) [
  | inl meant ↦ absurd (ground arith)
  | inr other ↦ ground (arith, change_none p g rows)
]

-- What a run of the saga is about: the two shards, their tables before it, the booking `id`, the
-- reservation `d`, which is to be pending, and the status to restore.
pub record Setting (P : Platform) (c : Config) : Type 1 where
  pub laws : PrismaLaws P.prisma
  pub on : c.sharded ≡ true
  pub source : ℕ
  pub target : ℕ
  pub apart : source ≢ target
  pub source_tables : Tables
  pub target_tables : Tables
  pub id : JsString
  pub d : Reservation
  pub waits : d.status ≡ pending
  pub final : BookingStatus

module _ {P : Platform} where
  -- The client of shard `i` is in the state `db`.
  abbrev pub Holds : ℕ → World P → P.prisma.Db → Type 0
  Holds i w db = get_elem? w.shard_dbs i ≡ some db

module _ {P : Platform} {c : Config} (g : Setting P c) where
  open g use {laws, on, source, target, apart, source_tables, target_tables, id, d, waits, final}

  pub Made-pending : (b : Booking) → Made d target_tables b → b.status ≡ pending
  Made-pending b (room, _, _, fills, _, _) = fills.status ∙ waits

  -- The state in which such a run ends.
  pub record Ended (out : Result Relocated × World P) : Type 0 where
    pub source_db : P.prisma.Db
    pub target_db : P.prisma.Db
    pub at_source : Holds source out.1 source_db
    pub at_target : Holds target out.1 target_db
    pub end :
        SagaEnd
          (record {
            source = source_tables;
            target = target_tables;
            source' = P.prisma.tables source_db;
            target' = P.prisma.tables target_db;
          })
          id
          d
          final
          (name_of P c source)
          (name_of P c target)
          out.0

  -- A world in which the two shards are as wanted.
  pub ended :
      (out : Result Relocated) (w w' : World P) (sdb tdb : P.prisma.Db)
      → Holds source w sdb
      → Holds target w tdb
      → w'.shard_dbs ≡ w.shard_dbs
      → SagaEnd
          (record {
            source = source_tables;
            target = target_tables;
            source' = P.prisma.tables sdb;
            target' = P.prisma.tables tdb;
          })
          id
          d
          final
          (name_of P c source)
          (name_of P c target)
          out
      → Ended (out, w')
  ended out w w' sdb tdb hs ht same end = record {
    source_db = sdb;
    target_db = tdb;
    at_source = ap (λ l. get_elem? l source) same ∙ hs;
    at_target = ap (λ l. get_elem? l target) same ∙ ht;
    end = end;
  }
