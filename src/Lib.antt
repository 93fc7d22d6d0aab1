-- ===== src/Lib.antt =====
-- Models of the Komari agent: the parts that decide which settings are in force on a host, which
-- remote instructions are accepted, how the agent keeps its credentials, what may be changed on the
-- host, how files arrive in chunks, what the agent counts and when it reconnects.
--
-- Parts and files. Each part is a tree of modules below its name; `Shared` has the numbers, lists,
-- results, texts, signed integers and maps that they use.
--   Privileged (core/privileged): `Model` is Settings, State, Receipt and the messages of store.go
--     and baseline.go, with the digest `hash`; `Approval` is ValidateApproval; `Commit` is
--     Store.commit and Open over the state in memory, the file and the system calls that may fail;
--     `Operations` is RecordPending, Rollback, DiscardPending, AdoptBaseline, Enqueue,
--     FinishReceipt, ApplyApproved and ApplyHostApproved; `Methods` runs them in any order.
--   Signing (core/signing): `Replay` is ReplayGuard (replay.go), `Verify` is Verifier (verify.go)
--     and VerifyRecorded (recorded.go).
--   RuntimeConfig (core/runtimeconfig): `Model` and `Store` are store.go, `Effective` is
--     PolicyAllows, Inspect and EffectiveForMode (effective.go) and FromFlags; `Requests` runs
--     updates, rollbacks and restarts in any order.
--   Credentials: `Model` and `Store` are core/credentials/store.go (Identity, persist, BeginRefresh,
--     CommitRefresh and the other operations), `Pins` is core/enrollment/refresh_v2.go (the checks of
--     a response), `Rotation` is Refresh of core/enrollment/client.go and refreshCredentials of
--     clientcore/client.go, `Schedule` is clientcore/credential_renewal.go; `Calls` runs the
--     operations of the store and restarts in any order.
--   Host: `Trust` and `Verify` are core/hostops/authorization.go (Validate, VerifyRevision,
--     VerifyOperation), ValidService of manifest.go and release.go; `Actions` is validateActions and
--     the policy that executeTransaction writes (internal/hostcmd/transaction_linux.go), with
--     internal/hostcmd/legacy_policy_linux.go.
--   Delivery: `Apply` is recordPrivilegedRevision and failPrivileged (clientcore/privileged_apply.go),
--     `Baseline` is verifyV2Revision, acceptBaseline and localBaseline (clientcore/baseline.go), with
--     the surroundings of a call, `Receipts` is the loop of flushReceipts over the privileged outbox
--     (clientcore/baseline.go).
--   Uploads: `Spec` is parseUploadStreamSpec (files/stream.go), `Chunks` is writeUploadStreamChunk
--     (stream.go), commitFileUpload and cancelFileUpload (files/ops.go), `Lifecycle` is the active
--     streams and the tombstones of cancelled uploads (stream.go).
--   Netstatic (monitoring/netstatic/static.go): `Model`, `Counters`, `Files` and `Queries`.
--   Retry (clientcore/retry.go): `Policy`.
-- How they meet: Delivery verifies revisions with Signing, tests them against the policy with
-- `PolicyAllows` of RuntimeConfig and calls the operations of Privileged. Host verifies signed messages
-- with Signing and writes the policy under which `PolicyAllows` accepts their settings. Credentials uses
-- the pinned keys of Signing; the effective runtime configuration takes the privileged state. The RPC
-- client joins the rest, and is not modelled.
--
-- State is passed explicitly; an operation returns its result beside the new state. A record of
-- faults says which system calls of one call fail, and each call has its own. What the code takes
-- from other packages is a parameter: JSON and protobuf encodings, SHA-256, Ed25519, base64, URLs and
-- paths, random numbers, the clock, and the answers of the control plane. A mutex makes the calls a
-- sequence, so runs are lists of calls.
--
-- Bounds. Times are natural numbers (seconds or nanoseconds), durations of the runtime configuration
-- and the arguments of an upload signed. Sums of traffic wrap around at 2^64 as `uint64` does, the
-- products and sums of an upload at 2^63 as `int64` does, and a credential generation at 2^64. The
-- eviction of nonces recurs on the number of entries, which each round lowers; every other loop is
-- structural.
--
-- Not modelled: the RPC client, the first enrollment, the journal and the service changes of a host
-- transaction, the rescue helper, terminals, file operations other than uploads, readings of the
-- system, DNS and updates, which are mostly calls of the operating system or of the network; chunks of
-- one upload that are written at the same time; the order of errors of one map loop in `validate`;
-- explanatory texts; a reconnect interval beyond what an `int64` of nanoseconds holds; a negative
-- retention; the case of paths on Windows.
pub mod Shared
pub mod Privileged
pub mod Signing
pub mod RuntimeConfig
pub mod Netstatic
pub mod Retry
pub mod Uploads
pub mod Credentials
pub mod Host
pub mod Delivery
