-- ===== src/Tests/Replay.antt =====
-- Recorded calls and their replay at concrete inputs.
use openport_j.Base.{◌≡◌, refl, [], ◌∷◌, some, none, arith}
use openport_j.Device.Message.{Message}
use openport_j.Api.Record.{
  Call, recorded, rec_result, app_connect, app_write_msgs, app_start_msg_filter,
}
use openport_j.Tools.Replay.Recorded.{replays}
use openport_j.Tools.Replay.Maps.{map_find, map_get}
use openport_j.Tools.Replay.Lines.{ReplayState, nothing, connected, call_filter, replay_line}
use openport_j.Tools.Replay.Ids.{table, hands_channel, replay_line-Maps}

abbrev can_frame : Message
can_frame = record {
  protocol_id = 5;
  rx_status = 0;
  tx_flags = 64;
  timestamp = 0;
  extra_data_index = 0;
  body = 0 ∷ 0 ∷ 7 ∷ 223 ∷ [];
}

abbrev empty_message : Message
empty_message = record {
  protocol_id = 0;
  rx_status = 0;
  tx_flags = 0;
  timestamp = 0;
  extra_data_index = 0;
  body = [];
}

-- Channel 3 of the recording is channel 9 now.
abbrev connected_state : ReplayState
connected_state = record {
  maps = record { dev = []; ch = (3, 9) ∷ []; filt = []; per = [] };
  last = nothing;
  last_live = 0;
  slots = λ i. empty_message;
}

abbrev write_call : Call
write_call = app_write_msgs 3 (some (can_frame ∷ [])) (some 1) 500

abbrev connect_call : Call
connect_call = app_connect 1 6 0 500000

-- A second channel: 4 in the recording, 11 now.
replay_line-Maps_example :
    map_get
      (table connected
        (replay_line
          (replay_line connected_state (recorded connect_call) 11).0
          (rec_result 4)
          11).0.maps)
      4
    ≡ 11
replay_line-Maps_example =
    replay_line-Maps connected_state connected connect_call 4 11 4 hands_channel
      (omega arith, (omega arith, (omega arith, (omega arith, tt)))) (omega arith)
      (unfold map_find in omega arith)

abbrev blank_filter : Call
blank_filter = app_start_msg_filter 3 1 (some can_frame) (some can_frame) none

abbrev full_filter : Call
full_filter = app_start_msg_filter 3 3 (some can_frame) (some can_frame) (some can_frame)

-- A filter without a flow-control message, behind one with it, gets the other's.
stale_flow_control :
    (replays (replays connected_state full_filter 0).0 blank_filter 1).1
    ≡ some (call_filter 9 1 (some can_frame) (some can_frame) (some can_frame))
unfolding map_get map_find
stale_flow_control = refl
