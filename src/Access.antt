-- ===== src/Access.antt =====
-- From rows to keys and back (include/access, src/access).
pub mod RowCodec
pub mod Table
pub mod Rows
pub mod Scan
mod Tests
