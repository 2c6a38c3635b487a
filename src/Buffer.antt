-- ===== src/Buffer.antt =====
-- Node's `Buffer`, as far as the program uses it: a list of bytes, with the accessors' range checks.
-- A read takes its offset as an integer, since some callers compute it from received lengths;
-- writes are at offsets that the callers count up from 0.
mod Defs
pub mod Numbers
pub mod Frontier
unfoldable pub use Defs.*
