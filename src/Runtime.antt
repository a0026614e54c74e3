-- ===== src/Runtime.antt =====
-- What the program runs on: the errors it throws and catches, the parameters that stand for
-- Prisma, Redis and the JavaScript runtime, and the state of one application instance.
pub mod Errors
pub mod Platform
pub mod Memory
pub mod Redis
pub mod Sample
pub mod Queries
pub mod World
