-- ===== src/RuntimeConfig.antt =====
-- The runtime settings that the panel may change online (core/runtimeconfig): `Model` is the data
-- and the checks, `Store` the operations on the snapshot and its file, `Effective` what applies
-- after the privileged track and the local policy, `Requests` the runs of an installation; the other
-- children prove what they guarantee.
pub mod Model
pub mod Store
pub mod Effective
pub mod Requests
pub mod Files
pub mod Induction
pub mod Snapshots
pub mod Updates
pub mod Redelivery
pub mod Ceiling
mod Tests
