-- ===== src/Proto.antt =====
-- src/op_proto.c and src/op_proto.h, the codec of the wire protocol.
-- `Number` reads decimal fields, `Reply` and `Line` decode text replies, `Decode` is `op_parse`.
pub mod Number
pub mod Reply
pub mod Line
pub mod Decode
pub mod Print
pub mod Command
pub mod Resync
pub mod Version
