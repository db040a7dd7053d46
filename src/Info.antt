-- ===== src/Info.antt =====
-- QUERY_INFO, QUERY_DIRECTORY and SET_INFO: internal/smb/info.go.
pub mod Encode
pub mod Query
pub mod Entries
pub mod Directory
pub mod Set
pub mod Chain
pub mod Paging
pub mod Scan
pub mod Truncation
pub mod Fields
pub mod Walk
