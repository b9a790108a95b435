-- ===== src/Store.antt =====
-- The outside world that the handlers work on: the database, Redis, the job queue and the event
-- bus, and the repositories (server/src/infrastructure/persistence/typeorm/repositories) over the
-- tables. A table holds its aggregates by id. What the mappers do not write is lost on the way
-- (`stored`). Each call of the outside world takes one entry of `faults`; where that is true, the
-- call throws.
mod Monad
mod State
mod Repositories
pub mod Tracking
pub use Monad.*
pub use State.*
unfoldable pub use Repositories.*
