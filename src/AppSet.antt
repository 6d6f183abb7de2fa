-- ===== src/AppSet.antt =====
-- appset: the set of applications, its loading and the loop that keeps the running set equal to it.
pub mod Diff
pub mod Loop
pub mod Loader
