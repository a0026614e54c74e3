-- ===== src/Schema.antt =====
-- The data model, prisma/schema.prisma: the enums, a record for each model, and the four tables of
-- one PostgreSQL node. Instants are milliseconds since 1970, an amount of `Decimal(10, 2)` is a
-- whole number of cents.
pub mod Amount
use booking_hotel.Prelude.{ℕ, Bool, true, false, Option, List, JsString}
use booking_hotel.Schema.Amount.{ℤ}

pub data RoomType : Type 0 where
  single double suite : RoomType

pub data BookingStatus : Type 0 where
  pending confirmed cancelled completed : BookingStatus

pub record Hotel : Type 0 where
  pub id : JsString
  pub name : JsString
  pub address : JsString
  pub city : JsString
  pub rating : ℕ
  pub created_at : ℕ

pub record Room : Type 0 where
  pub id : JsString
  pub hotel_id : JsString
  pub room_number : JsString
  pub type : RoomType
  pub price_per_night : ℕ
  pub capacity : ℕ
  pub created_at : ℕ

pub record Guest : Type 0 where
  pub id : JsString
  pub full_name : JsString
  pub email : JsString
  pub phone : Option JsString
  pub created_at : ℕ

pub record Booking : Type 0 where
  pub id : JsString
  pub room_id : JsString
  pub guest_id : JsString
  pub check_in_date : ℕ
  pub check_out_date : ℕ
  pub status : BookingStatus
  pub total_price : ℤ
  pub created_at : ℕ

pub record Tables : Type 0 where
  pub hotels : List Hotel
  pub rooms : List Room
  pub guests : List Guest
  pub bookings : List Booking

-- `status: { in: ACTIVE_STATUSES }`
abbrev pub is_active : BookingStatus → Bool
is_active pending = true
is_active confirmed = true
is_active cancelled = false
is_active completed = false

abbrev pub same_status : BookingStatus → BookingStatus → Bool
same_status pending pending = true
same_status confirmed confirmed = true
same_status cancelled cancelled = true
same_status completed completed = true
same_status _ _ = false
