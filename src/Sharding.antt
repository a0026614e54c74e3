-- ===== src/Sharding.antt =====
-- Sharding of the aggregate hotel, rooms, bookings (src/sharding).
pub mod Key
pub mod BucketMap
pub mod Router
pub mod Resharding
pub mod Analytics
