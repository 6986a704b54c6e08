-- ===== src/Tools/Replay/Lines.antt =====
-- The lines of a recording, as the replay of tools/ab-official/j2534_trace.c carries them out.
use openport_j.Base.{
  ℕ, zero, suc, Bool, ◌&&◌, ◌||◌, not, List, [], ◌∷◌, Option, none, some, Bytes, codes, ltb, min,
  ◌==◌, if◌then◌else◌, get_or, drop,
}
use openport_j.Device.Message.{Message}
use openport_j.Proto.Number.{is_digit}
use openport_j.Transport.Select.{same_bytes}
use openport_j.Tools.Replay.Maps.{map_get, map_put, Maps, map_any}
use openport_j.Tools.Replay.{tokens, strtoul, Slots, parse_msgs}

-- Which call was made last, where it hands out an id.
pub data Last : Type 0 where
  nothing opened connected filtered started : Last

pub record ReplayState : Type 0 where
  pub maps : Maps
  pub last : Last
  pub last_live : ℕ
  pub slots : Slots

-- What PassThruIoctl is passed for its input.
pub data IoctlInput : Type 0 where
  no_input : IoctlInput
  configs : List (ℕ × ℕ) → IoctlInput
  pin : ℕ → IoctlInput

-- The calls of the library, with their inputs; an ioctl's flag says whether it has an output.
pub data Invocation : Type 0 where
  call_open : Invocation
  call_close : ℕ → Invocation
  call_version : ℕ → Invocation
  call_lasterr : Invocation
  call_connect : ℕ → ℕ → ℕ → ℕ → Invocation
  call_disconnect : ℕ → Invocation
  call_read : ℕ → ℕ → ℕ → Invocation
  call_write : ℕ → Slots → ℕ → ℕ → Invocation
  call_startp : ℕ → Message → ℕ → Invocation
  call_stopp : ℕ → ℕ → Invocation
  call_filter : ℕ → ℕ → Option Message → Option Message → Option Message → Invocation
  call_stopf : ℕ → ℕ → Invocation
  call_progv : ℕ → ℕ → ℕ → Invocation
  call_ioctl : ℕ → ℕ → IoctlInput → Bool → Invocation
  sleeps : ℕ → Invocation

-- The argument at a place of the line, a number. One that is missing is 0, as for sscanf; a line of
-- `write`, `startp`, `filter` or `ioctl` has all of its own.
abbrev pub arg : List Bytes → ℕ → ℕ
arg ts i = strtoul (get_or ts i [])

-- `=` and the id that the recorded call handed out.
unfoldable pub learn : Maps → Last → ℕ → ℕ → Maps
learn m nothing id live = m
learn m opened id live = record m { dev = map_put m.dev 4 id live }
learn m connected id live = record m { ch = map_put m.ch 16 id live }
learn m filtered id live = record m { filt = map_put m.filt 64 id live }
learn m started id live = record m { per = map_put m.per 16 id live }

-- A filter's message: the first `n` slots were parsed, and one without a protocol stands for NULL.
abbrev pub filter_msg : Slots → ℕ → ℕ → Option Message
filter_msg slots n i = if ltb i n && not ((slots i).protocol_id == 0) then some (slots i) else none

-- "%lu=%lu": the second number stands behind the digits of the first and `=`.
abbrev pub after_digits : Bytes → Bytes
after_digits [] = []
after_digits (c ∷ s) = if c == b'=' then s else if is_digit c then after_digits s else []

abbrev pub after_equals : Bytes → Bytes
after_equals [] = []
after_equals (c ∷ s) = if is_digit c then after_digits s else []

abbrev pub config_pairs : ℕ → List Bytes → List (ℕ × ℕ)
config_pairs zero ts = []
config_pairs (suc left) [] = []
config_pairs (suc left) (t ∷ ts) = (strtoul t, strtoul (after_equals t)) ∷ config_pairs left ts

abbrev pub get_config_id : ℕ
get_config_id = 0x01

abbrev pub set_config_id : ℕ
set_config_id = 0x02

abbrev pub read_vbatt_id : ℕ
read_vbatt_id = 0x03

abbrev pub read_prog_voltage_id : ℕ
read_prog_voltage_id = 0x0E

abbrev pub first_pin : List (ℕ × ℕ) → IoctlInput
first_pin [] = no_input
first_pin ((parameter, value) ∷ cfg) = pin parameter

abbrev pub ioctl_input : ℕ → List (ℕ × ℕ) → IoctlInput
ioctl_input ioctl cfg =
    if ioctl == set_config_id || ioctl == get_config_id
    then configs cfg
    else if ioctl == read_prog_voltage_id
    then first_pin cfg
    else no_input

abbrev pub ioctl_call : ℕ → ℕ → List (ℕ × ℕ) → Invocation
ioctl_call id ioctl cfg =
    call_ioctl id ioctl (ioctl_input ioctl cfg)
      (ioctl == read_vbatt_id || ioctl == read_prog_voltage_id)

-- A call that hands out an id, which is `live`.
abbrev pub hands_out : ReplayState → Last → ℕ → ReplayState
hands_out s last live = record s { last = last; last_live = live }

abbrev pub Done : Type 0
Done = ReplayState × Option Invocation

unfoldable pub replay_write : ReplayState → List Bytes → Done
replay_write s ts =
    let out = parse_msgs 64 0 (drop 3 ts) s.slots in
    (
      record s { slots = out.0 },
      some (call_write (map_get s.maps.ch (arg ts 0)) out.0 (min (arg ts 1) out.1) (arg ts 2)),
    )

unfoldable pub replay_startp : ReplayState → List Bytes → ℕ → Done
replay_startp s ts live =
    let out = parse_msgs 1 0 (drop 2 ts) s.slots in
    (
      hands_out (record s { slots = out.0 }) started live,
      some (call_startp (map_get s.maps.ch (arg ts 0)) (out.0 0) (arg ts 1)),
    )

unfoldable pub replay_filter : ReplayState → List Bytes → ℕ → Done
replay_filter s ts live =
    let out = parse_msgs 3 0 (drop 2 ts) s.slots in
    (
      hands_out (record s { slots = out.0 }) filtered live,
      some (
          call_filter (map_get s.maps.ch (arg ts 0)) (arg ts 1) (filter_msg out.0 out.1 0)
            (filter_msg out.0 out.1 1) (filter_msg out.0 out.1 2)),
    )

-- The calls whose arguments are numbers alone; another verb does nothing.
unfoldable pub replay_plain : ReplayState → Bytes → List Bytes → Option Invocation
replay_plain s verb ts =
    if same_bytes verb (codes "sleep")
    then some (sleeps (arg ts 0))
    else if same_bytes verb (codes "close")
    then some (call_close (map_get s.maps.dev (arg ts 0)))
    else if same_bytes verb (codes "version")
    then some (call_version (map_get s.maps.dev (arg ts 0)))
    else if same_bytes verb (codes "lasterr")
    then some call_lasterr
    else if same_bytes verb (codes "disconnect")
    then some (call_disconnect (map_get s.maps.ch (arg ts 0)))
    else if same_bytes verb (codes "read")
    then some (call_read (map_get s.maps.ch (arg ts 0)) (min (arg ts 1) 64) (arg ts 2))
    else if same_bytes verb (codes "stopp")
    then some (call_stopp (map_get s.maps.ch (arg ts 0)) (map_get s.maps.per (arg ts 1)))
    else if same_bytes verb (codes "stopf")
    then some (call_stopf (map_get s.maps.ch (arg ts 0)) (map_get s.maps.filt (arg ts 1)))
    else if same_bytes verb (codes "progv")
    then some (call_progv (map_get s.maps.dev (arg ts 0)) (arg ts 1) (arg ts 2))
    else if same_bytes verb (codes "ioctl")
    then some (ioctl_call (map_any s.maps (arg ts 0)) (arg ts 1) (config_pairs 32 (drop 2 ts)))
    else none

-- A line but for `=`; `live` is the id that the library hands out where the call has one.
unfoldable pub replay_verb : ReplayState → Bytes → List Bytes → ℕ → Done
replay_verb s verb ts live =
    if same_bytes verb (codes "open")
    then (hands_out s opened live, some call_open)
    else if same_bytes verb (codes "connect")
    then (
      hands_out s connected live,
      some (call_connect (map_get s.maps.dev (arg ts 0)) (arg ts 1) (arg ts 2) (arg ts 3)),
    )
    else if same_bytes verb (codes "write")
    then replay_write s ts
    else if same_bytes verb (codes "startp")
    then replay_startp s ts live
    else if same_bytes verb (codes "filter")
    then replay_filter s ts live
    else (s, replay_plain s verb ts)

unfoldable pub replay_tokens : ReplayState → List Bytes → ℕ → Done
replay_tokens s [] live = (s, none)
replay_tokens s (verb ∷ ts) live =
    if same_bytes verb (codes "=")
    then (record s { maps = learn s.maps s.last (arg ts 0) s.last_live; last = nothing }, none)
    else replay_verb (record s { last = nothing }) verb ts live

-- One line of the file.
unfoldable pub replay_line : ReplayState → Bytes → ℕ → Done
replay_line s line live = replay_tokens s (tokens [] line) live
