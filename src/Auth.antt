-- ===== src/Auth.antt =====
-- Operator authentication (web/app/auth).
pub mod Config
pub mod Cookies
pub mod Callback
pub mod AccessToken
pub mod RequestOrigin
pub mod Login
pub mod Logout
