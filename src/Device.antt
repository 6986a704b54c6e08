-- ===== src/Device.antt =====
-- src/op_device.c and src/op_device.h, the device session. `Protocol` maps protocol ids,
-- `Message` is a received message, `Ring` and `Queue` hold the messages of a channel, `State` is
-- the session's state, `Absorb` takes frames in, `Slot` the replies, `Stream` the byte stream.
pub mod Protocol
pub mod Message
pub mod Ring
pub mod Queue
pub mod State
pub mod Absorb
pub mod Slot
pub mod Stream
pub mod World
pub mod Reader
pub mod Exchange
pub mod Lifecycle
