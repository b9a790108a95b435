-- ===== src/Tests.antt =====
-- The theorems at concrete inputs.
pub mod Data
pub mod Requests
pub mod Reserving
pub mod Carts
pub mod Coupons
pub mod Locks
pub mod Codec
pub mod Rows
pub mod Passwords
pub mod Queries
pub mod Flow
pub mod Settling
pub mod Handling
pub mod Domain
pub mod Keys
