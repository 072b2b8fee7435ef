-- ===== src/Fleet.antt =====
-- The fleet of the console: the lists that web/app/console/page.tsx derives from its rows and from the
-- reader's scope and search, the vehicles that FleetTelemetryPanel and the map show of them, and the
-- map's own data and reloading (web/app/components/FleetMap.tsx).
pub mod Lists
pub mod Chosen
pub mod Reload
pub mod Features
pub mod Freshness
pub mod Background
