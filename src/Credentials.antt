-- ===== src/Credentials.antt =====
-- The enrolled identity of the agent: its file (core/credentials/store.go), the checks of a refresh
-- (core/enrollment/refresh_v2.go, Refresh of core/enrollment/client.go), and the rotation and its
-- schedule (clientcore/client.go, clientcore/credential_renewal.go).
mod Model
mod Store
mod Pins
mod Rotation
mod Schedule
mod Calls
mod Threshold
mod Agreement
mod Pending
mod Resumption
mod Commits
mod Refreshes
mod Delays
mod Rotations
mod Tests
