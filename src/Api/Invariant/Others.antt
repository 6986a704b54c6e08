-- ===== src/Api/Invariant/Others.antt =====
-- PassThruOpen, PassThruClose and the filter commands on a sound session.
use openport_j.Base.{
  ℕ, ◌%◌, ◌^◌, ◌≡◌, Bool, false, not, ◌&&◌, ◌||◌, List, [], ◌++◌, Option, none, some, Bytes, arith,
  ◌==◌, if_either, length,
}
use openport_j.Codes.{OpStatus, is_fine}
use openport_j.Proto.Decode.{cmd_max}
use openport_j.Proto.Command.{cmd_version, cmd_reset, cmd_filter}
use openport_j.Proto.Version.{parse_version}
use openport_j.Device.Message.{Message}
use openport_j.Device.State.{Device}
use openport_j.Device.World.{Step}
use openport_j.Device.Exchange.{Timing}
use openport_j.Device.Lifecycle.{Opening, op_device_open, op_device_close}
use openport_j.Device.Lifecycle.Opens.{
  IsReset, op_device_open-IsReset, op_device_close-Anchors, op_device_close-closed,
}
use openport_j.Device.Slot.{is_empty}
use openport_j.Api.Simple.{Answer, simple_cmd, is_zero, device_id}
use openport_j.Api.Session.{
  store_version, version_max, identify, info_text, open_fresh, pass_thru_open, pass_thru_close,
}
use openport_j.Api.Filters.{filter_set, filter_send, filter_checked}
use openport_j.Api.Invariant.{Sound, Anchors-Sound}
use openport_j.Api.Invariant.Calls.{simple_cmd-Sound}

-- A session without open channels, periodic messages and switched pins.
IsReset-Sound : (d : Device) → IsReset d → Sound d
IsReset-Sound d r = record {
  homes = λ i o. absurd (ground (arith, (r.idle i).closed));
  k_line = ground (arith, (r.idle 3).closed);
  l_line = ground (arith, (r.idle 7).closed);
  limited = λ i. rw ((r.idle i).no_periodic) (omega arith);
  bounded = r.bounded;
  one_power = λ p q h k. absurd (ground (arith, r.no_power p));
  disjoint = λ p g. absurd (ground (arith, r.no_ground p));
  in_mask = λ p l. (r.no_ground p, r.no_power p);
}

version-Sound : (d : Device) (v : Bytes) → Sound d → Sound (record d { fw_version = v })
version-Sound d v s = record {
  homes = s.homes;
  k_line = s.k_line;
  l_line = s.l_line;
  limited = s.limited;
  bounded = s.bounded;
  one_power = s.one_power;
  disjoint = s.disjoint;
  in_mask = s.in_mask;
}

close-Sound : (d : Device) (ss : List Step) → Sound d → Sound (op_device_close d ss)
close-Sound d ss s = Anchors-Sound d _ s (op_device_close-Anchors d ss)

store_version-Sound :
    (d : Device) (text : Option Bytes) (ss : List Step)
    → Sound d
    → Sound (store_version d text ss).0
unfolding store_version
store_version-Sound d none ss s = close-Sound d ss s
store_version-Sound d (some text) ss s =
    if_either P (parse_version text version_max).1 _ _ (version-Sound d _ s)
      (close-Sound _ ss (version-Sound d _ s))
  where
    P : Device × ℕ → Type 0
    P o = Sound o.0

identify-Sound : (d : Device) (t : Timing) (ss : List Step) → Sound d → Sound (identify d t ss).0
unfolding identify
identify-Sound d t ss s =
    if_either P (is_zero a.code) _ _ (store_version-Sound a.device (info_text a.reply) ss s')
      (close-Sound a.device ss s')
  where
    P : Device × ℕ → Type 0
    P o = Sound o.0

    a : Answer
    a = simple_cmd d (cmd_version cmd_max) [] t

    s' : Sound a.device
    s' = simple_cmd-Sound d (cmd_version cmd_max) [] t s

open_fresh-Sound :
    (d : Device) (e : Opening) (t : Timing) (ss : List Step)
    → d.is_open ≡ false
    → Sound (open_fresh d e t ss).0
unfolding open_fresh
open_fresh-Sound d e t ss c = if_either P (is_fine opened.1) _ _ (identify-Sound opened.0 t ss s) s
  where
    P : Device × ℕ → Type 0
    P o = Sound o.0

    opened : Device × OpStatus
    opened = op_device_open d e

    s : Sound opened.0
    s = IsReset-Sound opened.0 (op_device_open-IsReset d e c)

pub open-Sound :
    (d : Device) (has_out : Bool) (losing : List Step) (e : Opening) (t : Timing) (ss : List Step)
    → Sound d
    → Sound (pass_thru_open d has_out losing e t ss).0
unfolding pass_thru_open
open-Sound d has_out losing e t ss s = if_either P (not has_out) _ _ s (
    if_either P (d.is_open && not d.lost) _ _ s
      (open_fresh-Sound (op_device_close d losing) e t ss (op_device_close-closed d losing)))
  where
    P : Device × ℕ → Type 0
    P o = Sound o.0

pub close_call-Sound :
    (d : Device) (id : ℕ) (t : Timing) (ss : List Step)
    → Sound d
    → Sound (pass_thru_close d id t ss).0
unfolding pass_thru_close
close_call-Sound d id t ss s =
    if_either P (not d.is_open || not (id == device_id)) _ _ s
      (close-Sound _ ss (simple_cmd-Sound d (cmd_reset cmd_max) [] t s))
  where
    P : Device × ℕ → Type 0
    P o = Sound o.0

filter_set-Sound : (a : Answer) → Sound a.device → Sound (filter_set a).0
unfolding filter_set
filter_set-Sound a s = ground (arith, s)

filter_send-Sound :
    (d : Device) (i ty : ℕ) (payload : Bytes) (flags each : ℕ) (t : Timing)
    → Sound d
    → Sound (filter_send d i ty payload flags each t).0
unfolding filter_send
filter_send-Sound d i ty payload flags each t s =
    if_either P (is_empty (cmd_filter cmd_max i (ty % 2 ^ 32) (flags % 2 ^ 32) each)) _ _ s
      (filter_set-Sound _ (simple_cmd-Sound d _ payload t s))
  where
    P : Device × ℕ × Option ℕ → Type 0
    P o = Sound o.0

pub filter_checked-Sound :
    (d : Device) (i ty : ℕ) (mask pattern : Message) (flow : Option Message) (t : Timing)
    → Sound d
    → Sound (filter_checked d i ty mask pattern flow t).0
unfolding filter_checked
filter_checked-Sound d i ty mask pattern none t s = ground (
  arith,
  s,
  filter_send-Sound d i ty (mask.body ++ pattern.body) mask.tx_flags (length mask.body) t s,
)
filter_checked-Sound d i ty mask pattern (some flow) t s = ground (
  arith,
  s,
  filter_send-Sound d i ty (mask.body ++ (pattern.body ++ flow.body)) flow.tx_flags
      (length mask.body) t s,
)
