-- ===== src/Catalog.antt =====
-- The schema side of the database: values, records, table definitions, their checks and their text
-- form (include/catalog, src/catalog).
pub mod Value
pub mod Record
pub mod TableDef
pub mod Schema
pub mod TextForm
pub mod Store
mod Tests
