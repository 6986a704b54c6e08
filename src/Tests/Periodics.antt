-- ===== src/Tests/Periodics.antt =====
-- PassThruStopPeriodicMsg on a channel with three periodic messages.
use openport_j.Base.{refl, true, [], ◌∷◌, arith}
use openport_j.Device.State.{Device, put_channel, fresh_device}
use openport_j.Api.Channels.{line_taken}
use openport_j.Api.Periodic.{pass_thru_stop_periodic_msg}
use openport_j.Api.Invariant.{Sound, put_channel-Sound}
use openport_j.Api.Invariant.Reachable.{start, Reachable-Sound}
use openport_j.Api.Invariant.Stops.{IsStopped, stop_periodic_msg-IsStopped}
use openport_j.Device.Protocol.{protocol_channel}
use openport_j.Tests.Calls.{answered_by, ok_258}

-- An ISO 15765 channel, of a session that is not open.
abbrev with_channel : Device
with_channel = put_channel fresh_device 6 (record (fresh_device.ch 6) {
  is_open = true;
  protocol = 6;
  rq_alloc = true;
  periodic = 7 ∷ 8 ∷ 9 ∷ [];
})

abbrev ticking : Device
ticking = record with_channel { is_open = true; seq_next = 258 }

with_channel-Sound : Sound with_channel
unfolding protocol_channel line_taken
with_channel-Sound =
    put_channel-Sound fresh_device 6 _ (Reachable-Sound start) (omega arith) (omega arith) (λ _.
      (record { home = refl; ring = refl; ungrounded = λ pin g. absurd (ground arith) }, refl))

ticking-Sound : Sound ticking
ticking-Sound =
    let s = with_channel-Sound in
    record {
      homes = s.homes;
      k_line = s.k_line;
      l_line = s.l_line;
      limited = s.limited;
      bounded = s.bounded;
      one_power = s.one_power;
      disjoint = s.disjoint;
      in_mask = s.in_mask;
    }

stop_periodic_msg-IsStopped_example :
    IsStopped ticking 6 8 (pass_thru_stop_periodic_msg ticking 6 8 (answered_by ok_258))
stop_periodic_msg-IsStopped_example =
    stop_periodic_msg-IsStopped ticking 6 8 (answered_by ok_258) ticking-Sound refl refl
