-- ===== src/Compdb.antt =====
-- internal/compdb: the compilation databases of Unreal projects.
pub mod CommandLine
pub mod Entries
pub mod Generator
pub mod Rider
pub mod Validate
