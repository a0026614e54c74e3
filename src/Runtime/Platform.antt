-- ===== src/Runtime/Platform.antt =====
-- The interfaces of code that is not part of the repository: a Prisma client on one PostgreSQL
-- node, an ioredis client, and what the sources take from the JavaScript runtime. Each record of
-- laws states documented behaviour: a read changes nothing, a statement that rejects has changed
-- nothing, a statement that returns has done what it says, a transaction is all or nothing.
-- A client may reject any call, and a call may change hidden state of the client, so that the same
-- call can fail once and succeed later.
use booking_hotel.Prelude.{
  ℕ, ◌≡◌, ◌⊎◌, ◌↔◌, Bool, true, false, not, Option, none, some, List, [], ◌∷◌, ◌++◌, JsString, All,
  keep, length, if◌then◌else◌, str_eq,
}
use booking_hotel.Schema.{Tables, Hotel, Room, Guest, Booking, BookingStatus, RoomType}
use booking_hotel.Schema.Amount.{ℤ}
use booking_hotel.Runtime.Errors.{Error, Result, ok, err}

-- A callback `(db) => ...` that is handed a client.
abbrev pub Query : Type 0 → Type 0 → Type 0
Query Db A = Db → Result A × Db

abbrev pub In : {A : Type 0} → A → List A → Type 0
In a [] = ⊥
In a (x ∷ xs) = (a ≡ x) ⊎ In a xs

-- One model of the client, `db.booking`: `where` is a test on rows, `data` of an update a function
-- on rows, `data` of a create the columns that the source gives.
pub record Delegate (Db Row Data : Type 0) : Type 0 where
  pub find_unique : (Row → Bool) → Query Db (Option Row)
  pub find_first : (Row → Bool) → Query Db (Option Row)
  pub find_many : (Tables → Row → Bool) → Query Db (List Row)
  pub count : (Row → Bool) → Query Db ℕ
  pub create : Data → Query Db Row
  pub update : (Row → Bool) → (Row → Row) → Query Db Row
  pub update_many : (Row → Bool) → (Row → Row) → Query Db ℕ
  pub delete : (Row → Bool) → Query Db Row

-- What a lookup may return.
abbrev pub Finds : {Row : Type 0} → (Row → Bool) → List Row → Option Row → Type 0
Finds p rows none = All (λ r. p r ≡ false) rows
Finds p rows (some r) = In r rows × (p r ≡ true)

abbrev pub change : {Row : Type 0} → (Row → Bool) → (Row → Row) → List Row → List Row
change p f [] = []
change p f (r ∷ rows) = (if p r then f r else r) ∷ change p f rows

-- The laws of a model whose rows are `get`, changed by `put`, in a node's tables.
pub record DelegateLaws {Db Row Data : Type 0} (tables : Db → Tables) (get : Tables → List Row)
    (put : List Row → Tables → Tables) (Fills : Data → Row → Type 0) (m : Delegate Db Row Data)
    : Type 0 where
  pub find_unique_same : (p : Row → Bool) (db : Db) → tables (m.find_unique p db).1 ≡ tables db
  pub find_unique_ok :
      (p : Row → Bool) (db : Db) (o : Option Row)
      → (m.find_unique p db).0 ≡ ok o
      → Finds p (get (tables db)) o
  pub find_first_same : (p : Row → Bool) (db : Db) → tables (m.find_first p db).1 ≡ tables db
  pub find_first_ok :
      (p : Row → Bool) (db : Db) (o : Option Row)
      → (m.find_first p db).0 ≡ ok o
      → Finds p (get (tables db)) o
  pub find_many_same : (p : Tables → Row → Bool) (db : Db) → tables (m.find_many p db).1 ≡ tables db
  pub find_many_ok :
      (p : Tables → Row → Bool) (db : Db) (rows : List Row)
      → (m.find_many p db).0 ≡ ok rows
      → (r : Row) → In r rows ↔ (In r (get (tables db)) × (p (tables db) r ≡ true))
  pub count_same : (p : Row → Bool) (db : Db) → tables (m.count p db).1 ≡ tables db
  pub count_ok :
      (p : Row → Bool) (db : Db) (n : ℕ)
      → (m.count p db).0 ≡ ok n
      → n ≡ length (keep p (get (tables db)))
  pub create_ok :
      (d : Data) (db : Db) (r : Row)
      → (m.create d db).0 ≡ ok r
      → Fills d r × (tables (m.create d db).1 ≡ put (get (tables db) ++ r ∷ []) (tables db))
  pub update_ok :
      (p : Row → Bool) (f : Row → Row) (db : Db) (r : Row)
      → (m.update p f db).0 ≡ ok r
      → (old : Row) × In old (get (tables db))
        × (p old ≡ true)
        × (r ≡ f old)
        × (tables (m.update p f db).1 ≡ put (change p f (get (tables db))) (tables db))
  pub update_many_ok :
      (p : Row → Bool) (f : Row → Row) (db : Db) (n : ℕ)
      → (m.update_many p f db).0 ≡ ok n
      → (n ≡ length (keep p (get (tables db))))
        × (tables (m.update_many p f db).1 ≡ put (change p f (get (tables db))) (tables db))
  pub delete_ok :
      (p : Row → Bool) (db : Db) (r : Row)
      → (m.delete p db).0 ≡ ok r
      → In r (get (tables db))
        × (p r ≡ true)
        × (tables (m.delete p db).1 ≡ put (keep (λ x. not (p x)) (get (tables db))) (tables db))
  pub create_err :
      (d : Data) (db : Db) (e : Error)
      → (m.create d db).0 ≡ err e
      → tables (m.create d db).1 ≡ tables db
  pub update_err :
      (p : Row → Bool) (f : Row → Row) (db : Db) (e : Error)
      → (m.update p f db).0 ≡ err e
      → tables (m.update p f db).1 ≡ tables db
  pub update_many_err :
      (p : Row → Bool) (f : Row → Row) (db : Db) (e : Error)
      → (m.update_many p f db).0 ≡ err e
      → tables (m.update_many p f db).1 ≡ tables db
  pub delete_err :
      (p : Row → Bool) (db : Db) (e : Error)
      → (m.delete p db).0 ≡ err e
      → tables (m.delete p db).1 ≡ tables db

-- The columns that a create gives. A guest's `id` and every `createdAt` come from the database.
pub record NewHotel : Type 0 where
  pub id : JsString
  pub name : JsString
  pub address : JsString
  pub city : JsString
  pub rating : Option ℕ

pub record NewRoom : Type 0 where
  pub id : JsString
  pub hotel_id : JsString
  pub room_number : JsString
  pub type : RoomType
  pub price_per_night : ℕ
  pub capacity : ℕ

pub record NewGuest : Type 0 where
  pub full_name : JsString
  pub email : JsString
  pub phone : Option JsString

pub record NewBooking : Type 0 where
  pub id : JsString
  pub room_id : JsString
  pub guest_id : JsString
  pub check_in_date : ℕ
  pub check_out_date : ℕ
  pub total_price : ℤ
  pub status : BookingStatus

-- A created row has the columns that were given.
pub record FillsHotel (d : NewHotel) (r : Hotel) : Type 0 where
  pub id : r.id ≡ d.id
  pub name : r.name ≡ d.name
  pub address : r.address ≡ d.address
  pub city : r.city ≡ d.city

pub record FillsRoom (d : NewRoom) (r : Room) : Type 0 where
  pub id : r.id ≡ d.id
  pub hotel_id : r.hotel_id ≡ d.hotel_id
  pub room_number : r.room_number ≡ d.room_number
  pub type : r.type ≡ d.type
  pub price_per_night : r.price_per_night ≡ d.price_per_night
  pub capacity : r.capacity ≡ d.capacity

pub record FillsGuest (d : NewGuest) (r : Guest) : Type 0 where
  pub full_name : r.full_name ≡ d.full_name
  pub email : r.email ≡ d.email
  pub phone : r.phone ≡ d.phone

pub record FillsBooking (d : NewBooking) (r : Booking) : Type 0 where
  pub id : r.id ≡ d.id
  pub room_id : r.room_id ≡ d.room_id
  pub guest_id : r.guest_id ≡ d.guest_id
  pub check_in_date : r.check_in_date ≡ d.check_in_date
  pub check_out_date : r.check_out_date ≡ d.check_out_date
  pub total_price : r.total_price ≡ d.total_price
  pub status : r.status ≡ d.status

abbrev pub put_hotels : List Hotel → Tables → Tables
put_hotels rows t = record t { hotels = rows }

abbrev pub put_rooms : List Room → Tables → Tables
put_rooms rows t = record t { rooms = rows }

abbrev pub put_guests : List Guest → Tables → Tables
put_guests rows t = record t { guests = rows }

abbrev pub put_bookings : List Booking → Tables → Tables
put_bookings rows t = record t { bookings = rows }

-- A `PrismaClient`: the node behind it, its tables as of the last commit, its models and
-- `$transaction` at the isolation level Serializable.
pub record Prisma : Type 1 where
  pub Db : Type 0
  pub tables : Db → Tables
  pub hotel : Delegate Db Hotel NewHotel
  pub room : Delegate Db Room NewRoom
  pub guest : Delegate Db Guest NewGuest
  pub booking : Delegate Db Booking NewBooking
  pub transaction : (A : Type 0) → Query Db A → Query Db A
  pub select_one : Query Db (Unit {0})

pub record PrismaLaws (P : Prisma) : Type 1 where
  pub hotel : DelegateLaws P.tables (λ t. t.hotels) put_hotels FillsHotel P.hotel
  pub room : DelegateLaws P.tables (λ t. t.rooms) put_rooms FillsRoom P.room
  pub guest : DelegateLaws P.tables (λ t. t.guests) put_guests FillsGuest P.guest
  pub booking : DelegateLaws P.tables (λ t. t.bookings) put_bookings FillsBooking P.booking
  -- The identifier is the primary key: a booking is not created where a row has it.
  pub booking_key :
      (d : NewBooking) (db : P.Db) (r : Booking)
      → (P.booking.create d db).0 ≡ ok r
      → All (λ b. str_eq b.id d.id ≡ false) (P.tables db).bookings
  -- A transaction that returns has run its callback once, on the tables as they were, and has
  -- committed what it left.
  pub transaction_ok :
      (A : Type 0) (fn : Query P.Db A) (db : P.Db) (a : A)
      → (P.transaction A fn db).0 ≡ ok a
      → (start : P.Db) × (P.tables start ≡ P.tables db)
        × ((fn start).0 ≡ ok a)
        × (P.tables (P.transaction A fn db).1 ≡ P.tables (fn start).1)
  -- One that rejects is rolled back.
  pub transaction_err :
      (A : Type 0) (fn : Query P.Db A) (db : P.Db) (e : Error)
      → (P.transaction A fn db).0 ≡ err e
      → P.tables (P.transaction A fn db).1 ≡ P.tables db

-- An ioredis client.
pub record Redis : Type 1 where
  pub Client : Type 0
  -- `client.status === 'ready'`
  pub is_ready : Client → Bool
  -- The live keys: those that have not expired.
  pub live : Client → JsString → Option JsString
  pub get : JsString → Query Client (Option JsString)
  pub set_ex : JsString → JsString → ℕ → Query Client (Unit {0})
  pub set_px : JsString → JsString → ℕ → Query Client (Unit {0})
  pub del : List JsString → Query Client ℕ
  pub incr : JsString → Query Client ℕ
  pub exists : JsString → Query Client ℕ

-- What the sources take from the JavaScript runtime: `new Date(s).getTime()`, `toLowerCase`,
-- the process's supply of `randomUUID()` and of `Math.random()` (in units of 2 ^ -53), the decimal
-- form of a number and `Number(s) || 0`, and SHA-1 in hexadecimal.
pub record Js : Type 0 where
  pub date_ms : JsString → ℕ
  pub to_lower_case : JsString → JsString
  pub uuid : ℕ → JsString
  pub random : ℕ → ℕ
  pub decimal : ℕ → JsString
  pub number_or_zero : JsString → ℕ
  pub sha1 : JsString → JsString

pub record Platform : Type 1 where
  pub prisma : Prisma
  pub redis : Redis
  pub js : Js
