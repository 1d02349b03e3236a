-- ===== src/Quotas.antt =====
-- internal/quotas: limits on buckets and users, and what a write may add.
mod Tests
pub mod Int64
pub mod Tables
pub mod Checks
pub mod Limits
pub mod Updates
pub mod Recalculation
