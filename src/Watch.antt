-- ===== src/Watch.antt =====
-- internal/watch: what happens to the compilation database when files change.
pub mod Classify
pub mod Coordinator
