-- ===== src/Js.antt =====
-- What the program uses of JavaScript itself: strings, exceptions, `Map`, JSON.
pub mod Text
pub mod Search
pub mod Dates
pub mod Unicode
pub mod Result
pub mod Dict
pub mod Json
pub mod Exec
