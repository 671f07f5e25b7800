-- ===== src/Catalog.antt =====
-- The catalog: columns, schemas and zone maps (src/catalog).
pub mod Column
pub mod Schema
pub mod Stats
pub mod Tests
pub mod Manager
