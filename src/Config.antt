-- ===== src/Config.antt =====
-- config/config.go: the applications file, its defaults and its rules.
pub mod Paths
pub mod Check
pub mod Set
