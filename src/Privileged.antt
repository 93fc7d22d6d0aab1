-- ===== src/Privileged.antt =====
-- The privileged track (core/privileged): settings that the agent never widens on its own.
-- `Model` is the data, `Approval` the checks of a signed approval, `Commit` the write to disk and
-- `Operations` the methods of `Store`; the other children prove what they guarantee.
pub mod Model
pub mod Approval
pub mod Commit
pub mod Operations
pub mod Durability
pub mod Methods
pub mod Guards
pub mod Restriction
pub mod Induction
pub mod History
pub mod Approvals
pub mod Freshness
pub mod Digest
mod Tests
