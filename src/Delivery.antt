-- ===== src/Delivery.antt =====
-- How the daemon handles signed privileged revisions: `recordPrivilegedRevision` and `failPrivileged`
-- (clientcore/privileged_apply.go), `verifyV2Revision`, `acceptBaseline`, `localBaseline` and the
-- privileged part of `flushReceipts` (clientcore/baseline.go), over the store of Privileged.
mod Receipts
mod Baseline
mod Apply
mod Grants
mod Steps
mod Justified
mod Tests
