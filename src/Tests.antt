-- ===== src/Tests.antt =====
-- The theorems at concrete inputs, and runs of the definitions.
pub mod Data
mod Codec
mod Store
mod Scanner
mod Sqlite
mod Again
mod Api
mod Disk
mod Rpc
mod Main
