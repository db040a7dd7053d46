-- ===== src/Remote.antt =====
-- The client of internal/httpvfs/httpvfs.go at work on the provider of
-- internal/vfsprovider/vfsprovider.go: every request is answered by `Handler`.
pub mod Requests
pub mod Refines
pub mod Reads
