-- ===== src/Panels.antt =====
-- web/app/components: the panels of the console. What a panel shows is a function of the rows that the
-- page hands it and of its own state, the filters and the counts of rows on show.
pub mod Rows
pub mod Scopes
pub mod Filters
pub mod Exact
pub mod Queues
pub mod Shown
pub mod Alerts
pub mod Selection
