-- ===== src/Searchcore.antt =====
-- internal/searchcore/core.go: the search of a host's files. Texts are their bytes.
pub mod Paths
pub mod Glob
pub mod Ignore
pub mod Walk
pub mod Find
