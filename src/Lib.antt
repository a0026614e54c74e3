-- ===== src/Lib.antt =====
-- Verification of the booking service of a hotel chain: a NestJS application over PostgreSQL and
-- Redis.
--
-- Parts and their interaction. A request reaches BookingsService, RoomsService, HotelsService or
-- GuestsService. Hotels, rooms and bookings lie on shards that ShardRouter selects by the bucket in
-- an identifier; guests lie on the global node that DbRouter serves with a Primary and a Replica.
-- CacheService keeps search results, hotels and the marks of sticky sessions in Redis.
--
--   Prelude     helpers: Boolean tests on the native numbers, lists, JavaScript strings
--   Schema      prisma/schema.prisma
--   Runtime     rejected promises (Errors), the interfaces and laws of Prisma, ioredis and the
--               JavaScript runtime (Platform), what the cache relies on of Redis (Redis), callbacks on
--               a client (Queries), the state of one application instance (World); Memory and
--               Sample are a platform and a state for the examples
--   Sharding    src/sharding: Key and BucketMap (shard-key.ts), Router (shard-router.service.ts),
--               Resharding (resharding.ts), Analytics (sharding.service.ts)
--   Cache       src/cache: Service (cache.service.ts), Keys (cache-keys.ts)
--   Database    src/database/db-router.service.ts: ConnectionErrors, State, Router;
--               Session (src/database/request-context.ts); Replication
--               (src/database/replication.service.ts)
--   Bookings    src/bookings/bookings.service.ts: Transactions (serializable), Reservation
--               (reserve), Service (create, findAll, findOne, update, remove, cancel), Relocation
--               (relocate, compensate); Ledger, the specification of one shard's table of
--               bookings as a step relation; Requests (src/bookings/bookings.controller.ts)
--   Guests      src/guests/guests.service.ts
--   Hotels      src/hotels/hotels.service.ts
--   Rooms       src/rooms/rooms.service.ts
--   Health      src/health/health.controller.ts
--
-- Correspondence. A method of a service is a definition with the method's name in snake case. The
-- fields of the services, the nodes behind the clients, the clock and the supplies of random values
-- are the record World of Runtime/World; an asynchronous method is an Action, a function from a
-- World to a result and the World after it, so that a state change before an error is kept. A
-- callback on a client is a Query, a function on the state of that client alone. A node's state is
-- abstract: what it says of its tables is in PrismaLaws, and a client may reject any call.
-- Requests of one instance run one after the other; concurrent transactions of other clients are
-- seen only through the conflicts that the database reports. Between the calls that one request
-- makes nothing else happens.
--
-- Bounds and fuel. fnv1a works modulo 2 ^ 32. A position in the write-ahead log is rounded to a
-- double, on fuel for 64 bits more than a double holds, where a position has 64 bits. The retry loop
-- of a transaction is a recursion on the attempts left, five at first, as in the source. The binary
-- search of the hash ring runs on fuel, the number of points: each round shortens the interval, and
-- the theorem on it needs no more. No other loop needs a bound.
--
-- Not modelled: the controllers but for the handlers in Bookings/Requests, validation of bodies,
-- Swagger, logging, metrics, timers, connection hooks, the time that a fan-out takes, `include` of
-- related rows, the order of rows that a query returns, and the tools that measure the service.
pub mod Prelude
pub mod Schema
pub mod Runtime
pub mod Sharding
pub mod Cache
pub mod Database
pub mod Bookings
pub mod Guests
pub mod Health
pub mod Hotels
pub mod Rooms
