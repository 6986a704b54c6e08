-- ===== src/Tests.antt =====
-- The theorems at concrete inputs, and runs of the code.
pub mod Codec
pub mod Session
pub mod Commands
pub mod Calls
pub mod Periodics
pub mod Receive
pub mod Transport
pub mod Replay
pub mod Errors
