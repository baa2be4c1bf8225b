-- ===== src/Base/Lists.antt =====
-- Lists measured and cut by native numbers, and blocks of memory written in place.
mod Cut
mod Copy
pub use Cut.*
unfoldable pub use Copy.*
