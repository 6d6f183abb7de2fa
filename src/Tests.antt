-- ===== src/Tests.antt =====
-- The theorems at concrete inputs.
mod Stamps
mod Sweeps
mod Services
mod Files
mod Caches
mod Members
mod Sets
mod Gates
mod Deploys
mod Dooms
mod Corrections
