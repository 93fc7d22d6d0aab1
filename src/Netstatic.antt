-- ===== src/Netstatic.antt =====
-- The traffic counters per network interface (monitoring/netstatic): `Model` is the data,
-- `Counters` the sampling, the flush and the expiry, `Files` the state on disk and the lifecycle,
-- `Queries` the totals that are read; the other children prove what they guarantee.
pub mod Model
pub mod Counters
pub mod Files
pub mod Queries
pub mod Sums
pub mod Conservation
pub mod Sampling
pub mod Reports
pub mod Expiry
pub mod History
mod Tests
