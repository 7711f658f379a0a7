-- ===== src/Std.antt =====
-- What the program uses of Go's standard library.
pub mod Regexp
pub mod Strconv
pub mod Strings
pub mod Base64
pub mod Json
pub mod Http
pub mod Mux
pub mod Handler
pub mod Time
