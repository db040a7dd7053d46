-- ===== src/Examples.antt =====
-- Runs of the theorems at concrete inputs: a backend with two files in memory, an environment with
-- a read-only share and a writable one, and requests as a client sends them.
pub mod Backend
pub mod Codec
mod Names
mod Server
mod Remote
mod CommandLine
mod Creates
mod Listing
mod LocalFs
mod Lifecycle
mod Turns
mod Provider
mod Hello
