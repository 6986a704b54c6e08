-- ===== src/Tools.antt =====
-- Programs beside the driver: tools/ab-official/j2534_trace.c.
pub mod Replay
