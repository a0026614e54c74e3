-- ===== src/Bookings.antt =====
-- Bookings (src/bookings).
pub mod Transactions
pub mod Reservation
pub mod Service
pub mod Relocation
pub mod Ledger
pub mod Requests
