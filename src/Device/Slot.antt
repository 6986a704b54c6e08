-- ===== src/Device/Slot.antt =====
-- The command-reply slot: `stash_reply` of src/op_device.c. See
-- `stash_data` for the path that drops a reply after it has written the slot.
pub mod Match
use openport_j.Base.{
  ℕ, ◌-◌, ◌≡◌, ◌≢◌, Bool, true, false, not, ◌&&◌, ◌||◌, List, [], ◌∷◌, Option, none, some, Bytes,
  ltb, leb, ◌==◌, if◌then◌else◌, length, take, get_or,
}
use openport_j.Proto.Reply.{Reply, ReplyKind, is_init}
use openport_j.Device.State.{Device}

abbrev pub is_info : ReplyKind → Bool
is_info ReplyKind.info = true
is_info _ = false

abbrev pub is_error : ReplyKind → Bool
is_error ReplyKind.error = true
is_error _ = false

-- `r->tail[r->ntail - 1]`
abbrev pub last_token : Reply → ℕ
last_token r = get_or r.tail (length r.tail - 1) 0

abbrev pub is_empty : List ℕ → Bool
is_empty [] = true
is_empty (n ∷ ns) = false

-- `sizeof d->reply_text` and `sizeof d->reply_data`
abbrev pub reply_text_size : ℕ
reply_text_size = 192

abbrev pub reply_data_size : ℕ
reply_data_size = 255

-- An init reply while the waiting command is no init.
unfoldable pub wrong_init : Device → Reply → Bool
wrong_init d r = is_init r.kind && (not (d.cmd_verb == b'y') && not (d.cmd_verb == b'w'))

-- A reply without the number of the waiting numbered command.
unfoldable pub wrong_number : Device → Reply → Bool
wrong_number d r =
    not (d.seq_pending == 0)
    && not (is_init r.kind)
    && (is_info r.kind || is_empty r.tail || not (last_token r == d.seq_pending))

-- `d->reply = *r`, the detail of a numbered error, and the copied text.
unfoldable pub copy_reply : ℕ → Reply → Reply
copy_reply seq r =
    let numbered_error = not (seq == 0) && is_error r.kind in
    record r {
      has_detail = if numbered_error then leb 2 (length r.tail) else r.has_detail;
      detail =
          if numbered_error
          then if leb 2 (length r.tail) then get_or r.tail 0 0 else 0
          else r.detail;
      text =
          if is_info r.kind
          then elim r.text [ none ↦ none | some s ↦ some (take (reply_text_size - 1) s) ]
          else none;
    }

abbrev pub all_bytes : List ℕ → Bool
all_bytes [] = true
all_bytes (t ∷ ts) = leb t 0xFF && all_bytes ts

-- The loop over the key bytes: no result if one of them is no byte.
unfoldable pub key_bytes : List ℕ → Bytes
key_bytes ts = if all_bytes ts then ts else []

-- NULL for no bytes.
abbrev pub some_bytes : Bytes → Option Bytes
some_bytes [] = none
some_bytes (b ∷ s) = some (b ∷ s)

-- The data of an `arw` reply, from its tokens; `none` for a reply of another command.
unfoldable pub token_data : ℕ → Reply → Option (Option Bytes)
token_data seq r =
    if seq == 0
    then some (some_bytes (key_bytes r.tail))
    else if last_token r == seq
    then some (some_bytes (key_bytes (take (length r.tail - 1) r.tail)))
    else if ltb 0xFF (last_token r)
    then none
    else some (some_bytes (key_bytes r.tail))

-- The data of an `ary` reply.
unfoldable pub raw_data : ℕ → Reply → Bytes → Option (Option Bytes)
raw_data seq r s =
    if not (seq == 0) && (not (is_empty r.tail) && not (last_token r == seq))
    then none
    else some (some (take reply_data_size s))

unfoldable pub line_data : ℕ → Reply → Option (Option Bytes)
line_data seq r = if is_empty r.tail then some none else token_data seq r

-- The data kept in the slot; `none` where the reply is found to be another command's.
unfoldable pub init_data : ℕ → Reply → Option (Option Bytes)
init_data seq r =
    if is_init r.kind
    then elim r.body [
      | none ↦ line_data seq r
      | some s ↦ if is_empty s then line_data seq r else raw_data seq r s
    ]
    else some none

-- `d->reply` is overwritten before the data of an init reply is looked at; where its number is
-- wrong, the function returns after that, without setting `reply_valid`.
unfoldable pub stash_data : Device → Reply → Option (Option Bytes) → Device
stash_data d r none = record d { reply = copy_reply d.seq_pending r }
stash_data d r (some s) = record d {
  reply = record (copy_reply d.seq_pending r) { body = s };
  reply_valid = true;
}

unfoldable pub stash_reply : Device → Reply → Device
stash_reply d r =
    if not d.cmd_waiting || (wrong_init d r || wrong_number d r)
    then d
    else stash_data d r (init_data d.seq_pending r)
