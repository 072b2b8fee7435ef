-- ===== src/Examples.antt =====
-- Concrete runs, at which the theorems are applied.
mod Fixtures
mod Sessions
mod Commands
mod Tokens
mod Pages
mod Bodies
mod Rows
mod Polls
mod Queues
mod Loads
mod Fleet
mod Lists
mod Outbound
mod Enlarged
