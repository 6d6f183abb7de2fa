-- ===== src/Prune.antt =====
-- prune/prune.go: the deletion of what git no longer declares.
pub mod Rule
pub mod Departing
pub mod Claims
pub mod Calls
pub mod Volumes
pub mod Sweep
