-- ===== src/Tools/Replay/Messages.antt =====
-- The replay of a recorded line has the messages that the application passed.
use openport_j.Base.{
  ℕ, zero, suc, ◌+◌, ◌^◌, ◌≤◌, ◌<◌, ◌≡◌, refl, ap, ◌∙◌, false, List, [], ◌∷◌, ◌++◌, append_assoc,
  Option, some, none, Bytes, arith, length, take, length-take,
}
use openport_j.Base.All.{All, AreBytes, All-take}
use openport_j.Codes.{msg_data_max}
use openport_j.Proto.Number.{is_digit}
use openport_j.Proto.Print.{decimal}
use openport_j.Proto.Print.ReadBack.{StartsDigit, decimal-StartsDigit}
use openport_j.Device.Message.{Message}
use openport_j.Api.Record.{hex, rec_hex, rec_msg, rec_each}
use openport_j.Tools.Replay.{tokens, is_dash, Slots, put_slot, parsed_msg, parse_msgs}
use openport_j.Tools.Replay.Numbers.{strtoul-decimal, hex_to_bytes-rec_hex}
use openport_j.Tools.Replay.Tokens.{
  IsWord, StartsSeparator, spaced_token, decimal_pos, decimal-IsWord, rec_hex-IsWord,
}

dash : Bytes
dash = b'-' ∷ []

-- The words of recorded messages.
pub words : List (Option Message) → List Bytes
words [] = []
words (none ∷ ms) = dash ∷ dash ∷ dash ∷ words ms
words (some m ∷ ms) =
    decimal m.protocol_id ∷ decimal m.tx_flags ∷ rec_hex (take msg_data_max m.body) ∷ words ms

pub rec_each-StartsSeparator : (ms : List (Option Message)) → StartsSeparator (rec_each ms)
unfolding rec_each rec_msg
rec_each-StartsSeparator [] = refl
rec_each-StartsSeparator (none ∷ ms) = refl
rec_each-StartsSeparator (some m ∷ ms) = refl

rec_hex_pos : (s : Bytes) → 0 < length (rec_hex s)
unfolding rec_hex hex
rec_hex_pos [] = omega arith
rec_hex_pos (b ∷ s) = omega arith

three_tokens :
    (u v w r : Bytes)
    → (0 < length u) × (0 < length v) × (0 < length w)
    → IsWord u × IsWord v × IsWord w
    → StartsSeparator r
    → tokens [] ((b' ' ∷ (u ++ (b' ' ∷ (v ++ (b' ' ∷ w))))) ++ r) ≡ u ∷ v ∷ w ∷ tokens [] r
three_tokens u v w r (lu, lv, lw) (iu, iv, iw) e =
    ap (λ s. tokens [] (b' ' ∷ s))
      (append_assoc u (b' ' ∷ (v ++ (b' ' ∷ w))) r
        ∙ ap (λ s. u ++ (b' ' ∷ s)) (append_assoc v (b' ' ∷ w) r))
    ∙ spaced_token u (b' ' ∷ (v ++ (b' ' ∷ (w ++ r)))) lu iu refl
    ∙ ap (λ ts. u ∷ ts)
        (spaced_token v (b' ' ∷ (w ++ r)) lv iv refl ∙ ap (λ ts. v ∷ ts) (spaced_token w r lw iw e))

pub tokens-rec_each : (ms : List (Option Message)) → tokens [] (rec_each ms) ≡ words ms
unfolding words dash rec_each rec_msg
tokens-rec_each [] = unfold tokens in refl
tokens-rec_each (none ∷ ms) =
    three_tokens dash dash dash (rec_each ms) (omega arith, omega arith, omega arith)
      ((refl, tt), (refl, tt), (refl, tt)) (rec_each-StartsSeparator ms)
    ∙ ap (λ ts. dash ∷ dash ∷ dash ∷ ts) (tokens-rec_each ms)
tokens-rec_each (some m ∷ ms) =
    three_tokens (decimal m.protocol_id) (decimal m.tx_flags) (rec_hex (take msg_data_max m.body))
      (rec_each ms)
      (decimal_pos m.protocol_id, decimal_pos m.tx_flags, rec_hex_pos (take msg_data_max m.body))
      (
        decimal-IsWord m.protocol_id,
        decimal-IsWord m.tx_flags,
        rec_hex-IsWord (take msg_data_max m.body),
      )
      (rec_each-StartsSeparator ms)
    ∙ ap
        (λ ts. decimal m.protocol_id ∷ decimal m.tx_flags ∷ rec_hex (take msg_data_max m.body) ∷ ts)
        (tokens-rec_each ms)

-- What is passed on of a message: its protocol, its flags and its data, cut at the size of `Data`.
abbrev pub replayed : Message → Message
replayed m = record {
  protocol_id = m.protocol_id;
  rx_status = 0;
  tx_flags = m.tx_flags;
  timestamp = 0;
  extra_data_index = 0;
  body = take msg_data_max m.body;
}

-- The array after a line: a NULL message leaves in its slot what an earlier line put there.
abbrev pub fill : ℕ → List (Option Message) → Slots → Slots
fill n [] slots = slots
fill n (none ∷ ms) slots = fill (n + 1) ms slots
fill n (some m ∷ ms) slots = fill (n + 1) ms (put_slot slots n (replayed m))

-- The fields are 64-bit numbers and the data bytes.
abbrev pub IsRecorded : Option Message → Type 0
IsRecorded none = Unit
IsRecorded (some m) = (m.protocol_id < 2 ^ 64) × (m.tx_flags < 2 ^ 64) × AreBytes m.body

parsed_msg-replayed :
    (m : Message)
    → IsRecorded (some m)
    → parsed_msg (decimal m.protocol_id) (decimal m.tx_flags) (rec_hex (take msg_data_max m.body))
      ≡ replayed m
unfolding parsed_msg
parsed_msg-replayed m (p, f, a) =
    rw
      (
        strtoul-decimal m.protocol_id p,
        strtoul-decimal m.tx_flags f,
        hex_to_bytes-rec_hex msg_data_max (take msg_data_max m.body)
            (omega (arith, length-take msg_data_max m.body))
            (All-take (λ b. b < 256) msg_data_max m.body a),
      )
      refl

not_dash : (s : Bytes) → StartsDigit s → is_dash s ≡ false
unfolding is_digit
not_dash [] h = absurd h
not_dash (c ∷ []) h = ground arith
not_dash (c ∷ d ∷ s) h = refl

parse_msgs-words :
    (left n : ℕ) (ms : List (Option Message)) (slots : Slots)
    → length ms ≤ left
    → All IsRecorded ms
    → parse_msgs left n (words ms) slots ≡ (fill n ms slots, n + length ms)
unfolding parse_msgs words dash
parse_msgs-words zero n [] slots l a = ap (λ k. (slots, k)) (omega arith)
parse_msgs-words (suc left) n [] slots l a = ap (λ k. (slots, k)) (omega arith)
parse_msgs-words zero n (m ∷ ms) slots l a = absurd (omega arith)
parse_msgs-words (suc left) n (none ∷ ms) slots l (_, a) =
    parse_msgs-words left (n + 1) ms slots (omega arith) a
    ∙ ap (λ k. (fill (n + 1) ms slots, k)) (omega arith)
parse_msgs-words (suc left) n (some m ∷ ms) slots l (r, a) =
    rw
      (
        not_dash (decimal m.protocol_id) (decimal-StartsDigit m.protocol_id),
        parsed_msg-replayed m r,
      )
      (parse_msgs-words left (n + 1) ms (put_slot slots n (replayed m)) (omega arith) a
        ∙ ap (λ k. (fill (n + 1) ms (put_slot slots n (replayed m)), k)) (omega arith))

pub parse_msgs-all_words :
    (cap : ℕ) (ms : List (Option Message)) (slots : Slots)
    → length ms ≤ cap
    → All IsRecorded ms
    → parse_msgs cap 0 (words ms) slots ≡ (fill 0 ms slots, length ms)
parse_msgs-all_words cap ms slots l a =
    parse_msgs-words cap 0 ms slots l a ∙ ap (λ k. (fill 0 ms slots, k)) (omega arith)
