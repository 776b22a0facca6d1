-- ===== src/Utils.antt =====
-- internal/utils, and what the HTTP layer uses of Go's strings and strconv: texts, signed integers,
-- local times and page cursors.
pub mod Text
pub mod Integers
pub mod LocalTime
pub mod Cursors
