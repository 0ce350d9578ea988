-- ===== src/Meta.antt =====
-- internal/wgmeta: names of peers kept in a JSON file for each interface. `Path` finds the file,
-- `Store` reads and replaces it.
pub mod Names
pub mod Path
pub mod Store
pub mod Update
pub mod Reread
pub mod Tests
