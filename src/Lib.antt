-- ===== src/Lib.antt =====
-- Verification of the OpenPort 2.0 J2534 driver and its transports (src/*.c).
--
-- The driver speaks a text protocol with the cable: the application's call becomes a command line
-- ("att6 12 64 1000000 257\r\n" and a payload), the cable answers with text replies that echo the
-- command's number and with binary frames that carry vehicle traffic. A reader thread splits the
-- byte stream into replies and frames; frames are reassembled into messages and queued per
-- channel, replies go to the one command that waits.
--
--   Base: booleans, lists and numbers that the modules share.
--   Codes: the constants of include/j2534/j2534.h and `op_status` of src/op_transport.h.
--   Proto: src/op_proto.c. Number is parse_u32 and parse_tail, Reply the record op_reply, Line
--   parse_ascii, Decode op_parse, Resync op_resync_offset, Version op_parse_version, Print and
--   Command the encoders op_cmd_*. Buffers are lists of bytes; a pointer into a buffer is the list
--   of the bytes there.
--   Device: src/op_device.c. Ring and Queue are ring_put, ring_get, queue_push and the pop of
--   op_device_pop; State is op_device; Absorb is absorb_frame; Slot is stash_reply; Stream is
--   consume_accum and what reader_main does with one read; World is what other threads do, as
--   steps; Exchange is cmd_exchange and op_device_pop; Lifecycle is op_device_open, sync_device,
--   op_device_close and the channels' functions.
--   Api: src/op_j2534.c. Simple is simple_cmd and the guards, Session PassThruOpen, PassThruClose
--   and PassThruReadVersion, Channels PassThruConnect and PassThruDisconnect, Pins
--   PassThruSetProgrammingVoltage, Periodic, Filters and Ioctl the calls of these names, Transfer
--   PassThruReadMsgs and PassThruWriteMsgs. Invariant has what holds between calls, and
--   Invariant.Reachable the calls as a step relation on the session.
--   Api.Errors is src/op_error.c with `fail`, `failed` and PassThruGetLastError; Api.Record is the
--   recording of the calls.
--   Transport: src/op_usb.c, src/op_serial.c, src/op_transport.h and src/op_time.h. Push is the loop
--   of usb_write and ser_write; Usb has op_usb, Usb.Buffer ring_put and ring_get, Usb.Receive
--   rx_submit, rx_done and usb_read, Usb.Write usb_write, Usb.Stop rx_start, rx_stop and usb_close,
--   Usb.Find find_bulk_interface, Usb.Open op_usb_open; Serial is ser_write and ser_read, Select
--   op_transport_open and the serial node, Deadline op_deadline_in. The children prove: Usb.Pending
--   is what the ring holds, Usb.Slots, Posted, Completions and Posting keep the posted reads in
--   order, Usb.History, Reads and Delivery are what a reader gets, Usb.Feed what
--   the reader thread makes of it.
--   Tools: the replay of tools/ab-official/j2534_trace.c, the reader of what Api.Record (the call
--   recording of src/op_j2534.c) writes. Replay has parse_msgs, hex_to_bytes and the C library's
--   strtok_r and strtoul as it uses them, Replay.Lines the map of ids and the call of each line;
--   Numbers, Tokens, Messages, Heads, Parameters and Inputs are what the two agree on, Recorded is
--   what a replay should do, Calls and Ids that it does.
--   Tests: runs of the code, and the theorems at concrete inputs.
--
-- Threads. The queues, the reply slot and the accumulator change under `lock` alone, and commands
-- are serialised by `cmd_lock`. A function that releases `lock` takes a list of the steps that
-- other threads make meanwhile, one list for each interleaving. A timed wait is the list of its
-- wake-ups before the deadline and the steps up to the deadline.
--
-- Loops run on structural recursion or on fuel. consume_accum has one unit of fuel more than bytes:
-- each round consumes a byte at least. Decimal printing has 20 digits, enough for 64 bits.
--
-- Integers are natural numbers; where the C type wraps and a value can reach the limit the
-- remainder is written out (the loss counter, the sequence number, ring indices, the casts to
-- uint32_t in the calls).
--
-- A call's loops: PassThruReadMsgs runs on a list of rounds and has no result where they are over
-- before it is; PassThruWriteMsgs and the configuration lists run on the caller's list.
--
-- The transports run on what the system answers: a list of answers to a write, one for each round;
-- one answer to each poll and read of a serial device, with the number of those that a signal
-- interrupted before; for a USB read the events of libusb's thread up to each wake-up. The driver
-- above takes a transport's outcomes as parameters; Device.Reader is where its reads come in.
--
-- Not modelled: logging (src/op_log.c), which no modelled decision reads; the texts that an entry
-- point sets itself; whether calls are recorded and that the file takes the lines; two calls of
-- the application at the same time, but for the steps that a World.Step names; NULL pointer
-- arguments of internal functions; the failure of malloc but for the flag that a channel has its
-- ring; tests, examples and the tools but for the replay of recorded calls.
pub mod Base
pub mod Proto
pub mod Codes
pub mod Device
pub mod Api
pub mod Transport
pub mod Tools
pub mod Tests
