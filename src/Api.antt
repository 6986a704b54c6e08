-- ===== src/Api.antt =====
-- src/op_j2534.c, the fourteen entry points of SAE J2534-1, on a session. No decision reads the text
-- of the last error, the log or the recording of calls: Errors and Record have the first and the
-- last apart from the entry points, and the log is left out. A NULL pointer
-- is `none`, or a Boolean for an output that is only written to. The answers of the cable to the
-- commands of a call, and what other threads do meanwhile, are its `Timing`s.
pub mod Record
pub mod Errors
pub mod Simple
pub mod Channels
pub mod Pins
pub mod Session
pub mod Transfer
pub mod Filters
pub mod Ioctl
pub mod Periodic
pub mod Invariant
