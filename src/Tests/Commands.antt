-- ===== src/Tests/Commands.antt =====
-- Commands and their replies, of src/op_device.c, at concrete inputs.
use openport_j.Base.{◌≤◌, ◌<◌, ◌≡◌, inl, refl, true, [], ◌∷◌, ◌++◌, some, Bytes, arith, length}
use openport_j.Codes.{fine}
use openport_j.Proto.Reply.{Reply, blank, ok, init}
use openport_j.Proto.Decode.{parse, parse_text, parse_scanned, split_line, parse_line}
use openport_j.Proto.Line.{parse_ascii, parse_verb, parse_ok}
use openport_j.Proto.Number.{
  parse_tail, tail_from, store_token, skip_spaces, parse_u32, digits_from, saturate, is_digit,
}
use openport_j.Proto.Print.{decimal, digits_before, spaced}
use openport_j.Proto.Command.{cmd_is_numbered, cmd_number}
use openport_j.Device.State.{Device, fresh_device}
use openport_j.Device.Slot.{
  stash_reply, wrong_init, wrong_number, copy_reply, init_data, stash_data,
}
use openport_j.Device.Slot.Match.{stash_reply-overwritten}
use openport_j.Device.Stream.{
  consume, reader_take, accum_cap, consume_accum, deliver, advance, round, keep_rest,
}
use openport_j.Device.Stream.Chunks.{Waits, consume-Waits, reader_take_bounds}
use openport_j.Device.Stream.Cuts.{Clean, consume-append}
use openport_j.Device.World.{arrives, step, steps, await}
use openport_j.Device.Exchange.{
  Timing, cmd_exchange, next_seq, exchange_open, exchange_numbered, transmit, collect,
}
use openport_j.Device.Exchange.Outcomes.{
  IsReplyTo, Explains, cmd_exchange-IsReplyTo, cmd_exchange-Explains,
}

abbrev session : Device
session = record fresh_device { is_open = true; seq_next = 300 }

-- Command 300 waits.
abbrev waiting : Device
waiting = record session { cmd_waiting = true; seq_pending = 300; cmd_verb = b'c'; seq_next = 301 }

abbrev its_reply : Reply
its_reply = record (blank ok) { tail = 300 ∷ [] }

-- The reply of command 299.
abbrev late_reply : Reply
late_reply = record (blank ok) { tail = 299 ∷ [] }

-- An `aty` whose reply has come, and an `ary` of command 299.
abbrev init_answered : Device
init_answered = record waiting { cmd_verb = b'y'; reply_valid = true; reply = its_reply }

abbrev late_init : Reply
late_init = record (blank init) { tail = 299 ∷ []; body = some (1 ∷ 2 ∷ []) }

stash_reply-overwritten_example :
    ((stash_reply init_answered late_init).reply_valid ≡ true)
    × ((stash_reply init_answered late_init).reply.body ≡ some (1 ∷ 2 ∷ []))
stash_reply-overwritten_example =
    stash_reply-overwritten init_answered late_init 1 (2 ∷ []) refl refl (inl refl) (omega arith)
      refl refl (λ e. cc) (omega arith)

-- "aro 300\r\n"
abbrev ok_line : Bytes
ok_line = b'a' ∷ b'r' ∷ b'o' ∷ b' ' ∷ b'3' ∷ b'0' ∷ b'0' ∷ b'\r' ∷ b'\n' ∷ []

consume-Waits_example :
    Waits (consume 10 waiting ok_line).1 × (length (consume 10 waiting ok_line).1 ≤ 9)
consume-Waits_example = consume-Waits 10 waiting ok_line (omega arith)

reader_take_bounds_example : length (reader_take waiting ok_line).accum < accum_cap
reader_take_bounds_example = reader_take_bounds waiting ok_line (omega arith)

first_part-Clean : Clean 10 ok_line
unfolding Clean parse parse_text parse_scanned split_line parse_line parse_ascii parse_verb parse_ok
    parse_tail tail_from store_token skip_spaces parse_u32 digits_from saturate is_digit
first_part-Clean n = ((λ e. cc), tt)

consume-append_example :
    consume 20 waiting (ok_line ++ (b'a' ∷ b'r' ∷ []))
    ≡ consume 20
        (consume 10 waiting ok_line).0
        ((consume 10 waiting ok_line).1 ++ (b'a' ∷ b'r' ∷ []))
consume-append_example =
    consume-append 20 10 waiting ok_line (b'a' ∷ b'r' ∷ []) (omega arith) (omega arith)
      first_part-Clean

-- "atc5\r\n", answered in two reads.
abbrev close_line : Bytes
close_line = b'a' ∷ b't' ∷ b'c' ∷ b'5' ∷ b'\r' ∷ b'\n' ∷ []

abbrev two_reads : Timing
two_reads = record {
  before = [];
  during = [];
  written = fine;
  wakes =
      (arrives (b'a' ∷ b'r' ∷ []) ∷ [])
      ∷ (arrives (b'o' ∷ b' ' ∷ b'3' ∷ b'0' ∷ b'0' ∷ b'\r' ∷ b'\n' ∷ []) ∷ [])
      ∷ [];
  last = [];
}

cmd_exchange-Explains_example :
    Explains two_reads (cmd_exchange session close_line [] true two_reads)
cmd_exchange-Explains_example = cmd_exchange-Explains session close_line [] two_reads

answered_fine : (cmd_exchange session close_line [] true two_reads).status ≡ fine
unfolding cmd_exchange exchange_open exchange_numbered transmit collect steps step await reader_take
    consume_accum consume round advance deliver keep_rest next_seq cmd_is_numbered cmd_number
    decimal digits_before spaced stash_reply wrong_init wrong_number init_data stash_data copy_reply
    parse parse_text parse_scanned split_line parse_line parse_ascii parse_verb parse_ok parse_tail
    tail_from store_token skip_spaces parse_u32 digits_from saturate is_digit
answered_fine = refl

cmd_exchange-IsReplyTo_example :
    (r : Reply) × ((cmd_exchange session close_line [] true two_reads).reply ≡ some r)
    × IsReplyTo 300 r
cmd_exchange-IsReplyTo_example =
    cmd_exchange-IsReplyTo session close_line [] two_reads numbered (omega arith) (omega arith)
      (omega arith) answered_fine
  where
    numbered : cmd_is_numbered close_line ≡ true
    numbered = unfold cmd_is_numbered in refl
