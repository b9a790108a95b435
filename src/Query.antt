-- ===== src/Query.antt =====
-- TypeOrmQueryBuilderService
-- (server/src/infrastructure/persistence/typeorm/query-builder/typeorm-query-builder.service.ts):
-- what a list query asks of the database, by pages and by cursors.
pub mod Types
pub mod Filters
pub mod Filtering
pub mod Pages
pub mod Paging
pub mod Cursor
pub mod Seek
pub mod Payload
pub mod Beyond
pub mod Following
pub mod Joining
pub mod Walk
pub mod Backward
pub mod Preceding
