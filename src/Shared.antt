-- ===== src/Shared.antt =====
-- The shared value objects (server/src/core/domain/shared/domain/value-object).
pub mod UniqueId
pub mod Quantity
pub mod Text
pub mod Double
pub mod Price
pub mod Version
