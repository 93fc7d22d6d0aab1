-- ===== src/Uploads.antt =====
-- Chunked uploads (files/stream.go and files/ops.go): `Spec` is the metadata of a chunk, `Chunks` the
-- sessions and their part files, `Lifecycle` the streams that are active or cancelled; the other
-- children prove what they guarantee.
pub mod Spec
pub mod Chunks
pub mod Lifecycle
pub mod Ranges
pub mod Parts
pub mod Session
pub mod Content
pub mod Tombstones
mod Tests
