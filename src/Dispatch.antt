-- ===== src/Dispatch.antt =====
-- The commands of a message and their responses: `chainCtx`, `dispatch`, `handleCommand`,
-- `assembleResponse` and `substituteFileID` of internal/smb/server.go.
pub mod Command
pub mod Message
pub mod Serve
pub mod Segments
pub mod Compound
pub mod Carried
pub mod Pipeline
