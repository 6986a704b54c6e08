-- ===== src/Tools/Replay/Recorded.antt =====
-- What the replay does for each call that src/op_j2534.c recorded.
use openport_j.Base.{ℕ, ◌^◌, ◌≤◌, ◌<◌, List, [], ◌∷◌, Option, some, none, length, min}
use openport_j.Base.All.{All}
use openport_j.Proto.Number.{u32_max}
use openport_j.Device.Message.{Message}
use openport_j.Api.Record.{
  recorded_of, recorded_pairs, or_zero, alone, Call, app_open, app_close, app_connect,
  app_disconnect, app_read_msgs, app_write_msgs, app_start_periodic_msg, app_stop_periodic_msg,
  app_start_msg_filter, app_stop_msg_filter, app_set_programming_voltage, app_read_version,
  app_get_last_error, app_ioctl,
}
use openport_j.Tools.Replay.Messages.{fill, IsRecorded}
use openport_j.Tools.Replay.Parameters.{ArePairs}
use openport_j.Tools.Replay.Maps.{map_get, map_any}
use openport_j.Tools.Replay.Lines.{
  ReplayState, Done, nothing, opened, connected, filtered, started, hands_out, call_open,
  call_close, call_version, call_lasterr, call_connect, call_disconnect, call_read, call_write,
  call_startp, call_stopp, call_filter, call_stopf, call_progv, ioctl_call, filter_msg,
}

abbrev pub quiet : ReplayState → ReplayState
quiet s = record s { last = nothing }

abbrev pub refilled : ReplayState → List (Option Message) → ReplayState
refilled s ms = record s { slots = fill 0 ms s.slots }

-- What the replay does for a recorded call, where `live` is the id that it is handed out: the same
-- call on the ids that stand for the recorded ones. A read asks for at most 64 messages.
abbrev pub replays : ReplayState → Call → ℕ → Done
replays s app_open live = (hands_out s opened live, some call_open)
replays s (app_close dev) live = (quiet s, some (call_close (map_get s.maps.dev dev)))
replays s (app_connect dev protocol flags baud) live =
    (hands_out s connected live, some (call_connect (map_get s.maps.dev dev) protocol flags baud))
replays s (app_disconnect ch) live = (quiet s, some (call_disconnect (map_get s.maps.ch ch)))
replays s (app_read_msgs ch num timeout) live =
    (quiet s, some (call_read (map_get s.maps.ch ch) (min (or_zero num) 64) timeout))
replays s (app_write_msgs ch ms num timeout) live =
    let sent = recorded_of ms (or_zero num) in
    (
      refilled (quiet s) sent,
      some (
          call_write (map_get s.maps.ch ch) (fill 0 sent s.slots) (min (or_zero num) (length sent))
            timeout),
    )
replays s (app_start_periodic_msg ch m interval) live =
    let filled = refilled s (recorded_of (alone m) 1) in
    (
      hands_out filled started live,
      some (call_startp (map_get s.maps.ch ch) (filled.slots 0) interval),
    )
replays s (app_stop_periodic_msg ch id) live =
    (quiet s, some (call_stopp (map_get s.maps.ch ch) (map_get s.maps.per id)))
replays s (app_start_msg_filter ch filter_type mask pattern flow) live =
    let filled = refilled s (mask ∷ pattern ∷ flow ∷ []) in
    (
      hands_out filled filtered live,
      some (
          call_filter (map_get s.maps.ch ch) filter_type (filter_msg filled.slots 3 0)
            (filter_msg filled.slots 3 1) (filter_msg filled.slots 3 2)),
    )
replays s (app_stop_msg_filter ch id) live =
    (quiet s, some (call_stopf (map_get s.maps.ch ch) (map_get s.maps.filt id)))
replays s (app_set_programming_voltage dev pin_number voltage) live =
    (quiet s, some (call_progv (map_get s.maps.dev dev) pin_number voltage))
replays s (app_read_version dev) live = (quiet s, some (call_version (map_get s.maps.dev dev)))
replays s app_get_last_error live = (quiet s, some call_lasterr)
replays s (app_ioctl ch ioctl input) live =
    (quiet s, some (ioctl_call (map_any s.maps ch) ioctl (recorded_pairs ioctl input)))

abbrev pub AreUlongs : List ℕ → Type 0
AreUlongs = All (λ n. n < 2 ^ 64)

abbrev pub AreU32s : List ℕ → Type 0
AreU32s = All (λ n. n ≤ u32_max)

abbrev pub ArrayIsRecorded : Option (List Message) → Type 0
ArrayIsRecorded none = Unit
ArrayIsRecorded (some ms) = All (λ m. IsRecorded (some m)) ms

abbrev pub InputIsRecorded : Option (List (ℕ × ℕ)) → Type 0
InputIsRecorded none = Unit
InputIsRecorded (some cfg) = ArePairs cfg

-- The numbers are those that "%lu" prints, the numbers of a line that goes through the recorder's
-- buffer have 32 bits, and data consists of bytes.
abbrev pub IsCall : Call → Type 0
IsCall app_open = Unit
IsCall (app_close dev) = AreUlongs (dev ∷ [])
IsCall (app_connect dev protocol flags baud) = AreUlongs (dev ∷ protocol ∷ flags ∷ baud ∷ [])
IsCall (app_disconnect ch) = AreUlongs (ch ∷ [])
IsCall (app_read_msgs ch num timeout) = AreUlongs (ch ∷ or_zero num ∷ timeout ∷ [])
IsCall (app_write_msgs ch ms num timeout) =
    AreU32s (ch ∷ or_zero num ∷ timeout ∷ []) × ArrayIsRecorded ms
IsCall (app_start_periodic_msg ch m interval) = AreU32s (ch ∷ interval ∷ []) × IsRecorded m
IsCall (app_stop_periodic_msg ch id) = AreUlongs (ch ∷ id ∷ [])
IsCall (app_start_msg_filter ch filter_type mask pattern flow) =
    AreUlongs (ch ∷ filter_type ∷ []) × All IsRecorded (mask ∷ pattern ∷ flow ∷ [])
IsCall (app_stop_msg_filter ch id) = AreUlongs (ch ∷ id ∷ [])
IsCall (app_set_programming_voltage dev pin_number voltage) =
    AreUlongs (dev ∷ pin_number ∷ voltage ∷ [])
IsCall (app_read_version dev) = AreUlongs (dev ∷ [])
IsCall app_get_last_error = Unit
IsCall (app_ioctl ch ioctl input) = AreUlongs (ch ∷ ioctl ∷ []) × InputIsRecorded input
