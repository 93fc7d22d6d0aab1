-- ===== src/Retry.antt =====
-- The pacing of reconnects (clientcore/retry.go): `Policy` is the code, `Delays` what it guarantees
-- of the delays.
pub mod Policy
pub mod Delays
mod Tests
