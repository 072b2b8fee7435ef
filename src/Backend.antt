-- ===== src/Backend.antt =====
-- web/app/backend/[...path]/route.ts: the proxy between the browser and the API.
pub mod Parts
pub mod Handler
pub mod Checks
pub mod Safety
