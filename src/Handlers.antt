-- ===== src/Handlers.antt =====
-- The command handlers (server/src/core/application/*/command). The time and the fresh ids are
-- arguments. Logging is left out.
pub mod Control
pub mod Pricing
pub mod Orders
pub mod Payments
pub mod Stock
pub mod Versions
pub mod ReserveV1
pub mod OrdersCalm
pub mod PaymentsCalm
pub mod StockCalm
