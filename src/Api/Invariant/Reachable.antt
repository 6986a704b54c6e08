-- ===== src/Api/Invariant/Reachable.antt =====
-- The entry points as steps on the session, and the states that calls can lead to.
use openport_j.Base.{ℕ, ◌≡◌, refl, Bool, List, Option, some, arith}
use openport_j.Device.Message.{Message}
use openport_j.Device.State.{Device, fresh_device}
use openport_j.Device.World.{Step, steps}
use openport_j.Device.World.Anchored.{steps-Anchors}
use openport_j.Device.Exchange.{Timing}
use openport_j.Device.Lifecycle.{Opening}
use openport_j.Api.Channels.{pass_thru_connect, pass_thru_disconnect}
use openport_j.Api.Pins.{pass_thru_set_programming_voltage}
use openport_j.Api.Periodic.{pass_thru_start_periodic_msg, pass_thru_stop_periodic_msg}
use openport_j.Api.Session.{pass_thru_open, pass_thru_close}
use openport_j.Api.Filters.{pass_thru_start_msg_filter, pass_thru_stop_msg_filter}
use openport_j.Api.Ioctl.{Ioctl, pass_thru_ioctl}
use openport_j.Api.Transfer.{Round, Read, pass_thru_read_msgs, Turn, pass_thru_write_msgs}
use openport_j.Api.Invariant.{Sound, Anchors-Sound}
use openport_j.Api.Invariant.Calls.{connect-Sound, disconnect-Sound}
use openport_j.Api.Invariant.Pins.{set_programming_voltage-Sound}
use openport_j.Api.Invariant.Periodics.{start_periodic_msg-Sound, stop_periodic_msg-Sound}
use openport_j.Api.Invariant.Others.{open-Sound, close_call-Sound}
use openport_j.Api.Invariant.Traffic.{start_filter-Sound, stop_filter-Sound, ioctl-Sound}
use openport_j.Api.Invariant.Transfers.{read_msgs-Sound, write_msgs-Sound}

-- A call that has returned, with any arguments and any behaviour of the cable, and what other
-- threads do between two calls. (PassThruReadVersion and PassThruGetLastError change no state.)
pub data Call : Device → Device → Type 0 where
  idle : (d : Device) (ss : List Step) → Call d (steps d ss)
  opens :
      (d : Device) (has_out : Bool) (losing : List Step) (e : Opening) (t : Timing) (ss : List Step)
      → Call d (pass_thru_open d has_out losing e t ss).0
  closes :
      (d : Device) (id : ℕ) (t : Timing) (ss : List Step) → Call d (pass_thru_close d id t ss).0
  connects :
      (d : Device) (id p flags baud : ℕ) (has_out room : Bool) (t undo : Timing)
      → Call d (pass_thru_connect d id p flags baud has_out room t undo).0
  disconnects : (d : Device) (i : ℕ) (t : Timing) → Call d (pass_thru_disconnect d i t).0
  reads :
      (d : Device) (i : ℕ) (has_msgs : Bool) (wanted : Option ℕ) (t : ℕ) (rounds : List Round)
      (r : Read)
      → pass_thru_read_msgs d i has_msgs wanted t rounds ≡ some r
      → Call d r.device
  writes :
      (d : Device) (i : ℕ) (has_msgs : Bool) (turns : Option (List Turn)) (t : ℕ)
      → Call d (pass_thru_write_msgs d i has_msgs turns t).0
  start_periodic :
      (d : Device) (i : ℕ) (m : Option Message) (has_id : Bool) (interval : ℕ) (t : Timing)
      → Call d (pass_thru_start_periodic_msg d i m has_id interval t).0
  stop_periodic :
      (d : Device) (i id : ℕ) (t : Timing) → Call d (pass_thru_stop_periodic_msg d i id t).0
  start_filter :
      (d : Device) (i ty : ℕ) (mask pattern flow : Option Message) (has_out : Bool) (t : Timing)
      → Call d (pass_thru_start_msg_filter d i ty mask pattern flow has_out t).0
  stop_filter : (d : Device) (i id : ℕ) (t : Timing) → Call d (pass_thru_stop_msg_filter d i id t).0
  set_voltage :
      (d : Device) (id pin voltage : ℕ) (t : Timing)
      → Call d (pass_thru_set_programming_voltage d id pin voltage t).0
  ioctl : (d : Device) (i : ℕ) (call : Ioctl) → Call d (pass_thru_ioctl d i call).0

-- The states that a process can reach, call by call.
pub data Reachable : Device → Type 0 where
  start : Reachable fresh_device
  next : {d d' : Device} → Reachable d → Call d d' → Reachable d'

fresh-Sound : Sound fresh_device
fresh-Sound = record {
  homes = λ i o. absurd (ground arith);
  k_line = refl;
  l_line = refl;
  limited = λ i. omega arith;
  bounded = λ i. omega arith;
  one_power = λ p q h k. absurd (ground arith);
  disjoint = λ p g. refl;
  in_mask = λ p l. (refl, refl);
}

Call-Sound : {d d' : Device} → Call d d' → Sound d → Sound d'
Call-Sound (idle d ss) s = Anchors-Sound d _ s (steps-Anchors d ss)
Call-Sound (opens d o losing e t ss) s = open-Sound d o losing e t ss s
Call-Sound (closes d id t ss) s = close_call-Sound d id t ss s
Call-Sound (connects d id p flags baud o room t undo) s =
    connect-Sound d id p flags baud o room t undo s
Call-Sound (disconnects d i t) s = disconnect-Sound d i t s
Call-Sound (reads d i m w t rounds r e) s =
    let after = read_msgs-Sound d i m w t rounds s in rw e at after
Call-Sound (writes d i m turns t) s = write_msgs-Sound d i m turns t s
Call-Sound (start_periodic d i m o interval t) s = start_periodic_msg-Sound d i m o interval t s
Call-Sound (stop_periodic d i id t) s = stop_periodic_msg-Sound d i id t s
Call-Sound (start_filter d i ty mask pattern flow o t) s =
    start_filter-Sound d i ty mask pattern flow o t s
Call-Sound (stop_filter d i id t) s = stop_filter-Sound d i id t s
Call-Sound (set_voltage d id pin voltage t) s = set_programming_voltage-Sound d id pin voltage t s
Call-Sound (ioctl d i call) s = ioctl-Sound d i call s

-- Whatever an application calls, with whatever arguments, and whatever the cable answers or
-- leaves out: in every state that calls can lead to, each open channel carries a protocol of its
-- own firmware channel and has its ring; the K line and the L line carry at most one channel each;
-- no channel has more than ten periodic messages; every message in reassembly is within its
-- buffer; at most one pin has a voltage, none has both a voltage and a ground, and no pin that an
-- open channel drives is shorted to ground.
pub Reachable-Sound : {d : Device} → Reachable d → Sound d
Reachable-Sound start = fresh-Sound
Reachable-Sound (next r c) = Call-Sound c (Reachable-Sound r)
