-- ===== src/Host.antt =====
-- What may be changed on the host: the protected trust and the checks of signed revisions and
-- operations (core/hostops/authorization.go, release.go), and the checks of a host transaction against
-- the local policy (internal/hostcmd).
mod Trust
pub mod Verify
mod Actions
mod Ceilings
mod Approvals
mod Tests
