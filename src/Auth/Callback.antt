-- ===== src/Auth/Callback.antt =====
-- web/app/auth/callback/route.ts: the exchange of an authorization code for a session.
pub mod TokenResponse
pub mod Redirect
pub mod Handler
pub mod Session
pub mod Safety
pub mod Reset
