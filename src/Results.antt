-- ===== src/Results.antt =====
-- The reader of crates/runtime/src/results.rs: the checked bytes of a part, and the pages of rows that
-- a client asks for with a cursor.
pub mod Fetch
pub mod Page
pub mod Read
pub mod Tests
use rowtrail.Jobs.{DbError}

pub data ReadError : Type 0 where
  bad_limits bad_cursor bad_offset unknown_column source_invalid : ReadError
  too_small corrupt unavailable unsupported : ReadError
  store_error : DbError → ReadError
