-- ===== src/Signing.antt =====
-- Signed instructions (core/signing): `Replay` is the record of nonces, `Verify` the verifier; the
-- other children prove what they accept and refuse.
pub mod Replay
pub mod Verify
pub mod Entries
pub mod Nonces
pub mod Retention
pub mod Replays
pub mod Threshold
pub mod Acceptance
pub mod Window
mod Tests
