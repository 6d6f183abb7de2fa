-- ===== src/Reconcile.antt =====
-- reconcile: which applications the reconciler holds, and what bounds the work on each.
pub mod Membership
pub mod Backoff
pub mod Installs
pub mod Hold
pub mod Doomed
pub mod Pruned
pub mod Converge
