-- ===== src/Console.antt =====
-- The operations console (web/app/console and the types of web/app/types.ts).
pub mod Types
pub mod Statuses
pub mod Maps
pub mod Rows
pub mod Live
pub mod Poll
pub mod Recovery
pub mod Retry
pub mod Warehouse
pub mod Paging
