-- ===== src/Transport.antt =====
-- The transports below the driver: src/op_transport.h, src/op_usb.c and src/op_serial.c.
pub mod Push
pub mod Serial
pub mod Terminal
pub mod Usb
pub mod Select
pub mod Deadline
