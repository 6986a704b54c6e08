-- ===== src/Tools/Replay/Calls.antt =====
-- The replay of the recorded calls of an application.
use openport_j.Base.{ℕ, ◌≡◌, refl, ap, ◌∙◌, List, [], ◌∷◌, ◌++◌, Option, Bytes, codes, arith}
use openport_j.Base.All.{All}
use openport_j.Proto.Print.{decimal}
use openport_j.Device.Message.{Message}
use openport_j.Api.Record.{
  rec_each, rec_msgs, rec_line, rec_write, rec_startp, rec_filter, rec_ioctl, rec_pairs,
  recorded_of, recorded_pairs, or_zero, alone, Call, recorded, app_open, app_close, app_connect,
  app_disconnect, app_read_msgs, app_write_msgs, app_start_periodic_msg, app_stop_periodic_msg,
  app_start_msg_filter, app_stop_msg_filter, app_set_programming_voltage, app_read_version,
  app_get_last_error, app_ioctl,
}
use openport_j.Tools.Replay.{tokens}
use openport_j.Tools.Replay.Numbers.{strtoul-decimal}
use openport_j.Tools.Replay.Tokens.{IsWord}
use openport_j.Tools.Replay.Messages.{
  tokens-rec_each, rec_each-StartsSeparator, IsRecorded, parse_msgs-all_words,
}
use openport_j.Tools.Replay.Heads.{decimals, tokens_head, tokens_buffer}
use openport_j.Tools.Replay.Parameters.{
  tokens-rec_pairs, rec_pairs-StartsSeparator, config_pairs-pair_words,
}
use openport_j.Tools.Replay.Lines.{
  ReplayState, replay_write, replay_startp, replay_filter, replay_plain, replay_verb, replay_tokens,
  replay_line,
}
use openport_j.Tools.Replay.Recorded.{
  replays, AreUlongs, AreU32s, ArrayIsRecorded, InputIsRecorded, IsCall,
}
use openport_j.Tools.Replay.Inputs.{
  recorded_of-AreRecorded, length-recorded_of, alone-IsRecorded, recorded_pairs-ArePairs,
  length-recorded_pairs,
}

pub tokens-rec_line :
    (b : ℕ) (verb : Bytes) (ns : List ℕ)
    → IsWord (b ∷ verb)
    → tokens [] (rec_line (b ∷ verb) ns) ≡ (b ∷ verb) ∷ (decimals ns ++ [])
unfolding rec_line
tokens-rec_line b verb ns w =
    tokens_head b verb ns (b'\n' ∷ []) w refl
    ∙ ap (λ ts. (b ∷ verb) ∷ (decimals ns ++ ts)) (unfold tokens in refl)

replay_line-rec_write :
    (s : ReplayState) (ch : ℕ) (num : Option ℕ) (timeout live : ℕ) (ms : Option (List Message))
    → AreU32s (ch ∷ or_zero num ∷ timeout ∷ [])
    → ArrayIsRecorded ms
    → replay_line s (rec_write ch num timeout ms) live
      ≡ replays s (app_write_msgs ch ms num timeout) live
unfolding rec_write rec_msgs replay_line replay_tokens replay_verb replay_write
replay_line-rec_write s ch num timeout live ms u a =
    let sent = recorded_of ms (or_zero num) in
    ap (λ ts. replay_tokens s ts live)
      (tokens_buffer b'w' (b'r' ∷ b'i' ∷ b't' ∷ b'e' ∷ []) (ch ∷ or_zero num ∷ timeout ∷ [])
          (rec_each sent) (omega arith) u (refl, (refl, (refl, (refl, (refl, tt)))))
          (rec_each-StartsSeparator sent)
        ∙ ap (λ ts. codes "write" ∷ decimal ch ∷ decimal (or_zero num) ∷ decimal timeout ∷ ts)
            (tokens-rec_each sent))
    ∙ rw
        (
          strtoul-decimal ch (omega (arith, u.0)),
          strtoul-decimal (or_zero num) (omega (arith, u.1.0)),
          strtoul-decimal timeout (omega (arith, u.1.1.0)),
          parse_msgs-all_words 64 sent s.slots (omega (arith, length-recorded_of ms (or_zero num)))
              (recorded_of-AreRecorded ms (or_zero num) a),
        )
        refl

replay_line-rec_startp :
    (s : ReplayState) (ch interval live : ℕ) (m : Option Message)
    → AreU32s (ch ∷ interval ∷ [])
    → IsRecorded m
    → replay_line s (rec_startp ch m interval) live
      ≡ replays s (app_start_periodic_msg ch m interval) live
unfolding rec_startp rec_msgs replay_line replay_tokens replay_verb replay_startp
replay_line-rec_startp s ch interval live m u a =
    let sent = recorded_of (alone m) 1 in
    ap (λ ts. replay_tokens s ts live)
      (tokens_buffer b's' (b't' ∷ b'a' ∷ b'r' ∷ b't' ∷ b'p' ∷ []) (ch ∷ interval ∷ [])
          (rec_each sent) (omega arith) u (refl, (refl, (refl, (refl, (refl, (refl, tt))))))
          (rec_each-StartsSeparator sent)
        ∙ ap (λ ts. codes "startp" ∷ decimal ch ∷ decimal interval ∷ ts) (tokens-rec_each sent))
    ∙ rw
        (
          strtoul-decimal ch (omega (arith, u.0)),
          strtoul-decimal interval (omega (arith, u.1.0)),
          parse_msgs-all_words 1 sent s.slots (omega (arith, length-recorded_of (alone m) 1))
              (recorded_of-AreRecorded (alone m) 1 (alone-IsRecorded m a)),
        )
        refl

replay_line-rec_filter :
    (s : ReplayState) (ch filter_type live : ℕ) (mask pattern flow : Option Message)
    → AreUlongs (ch ∷ filter_type ∷ [])
    → All IsRecorded (mask ∷ pattern ∷ flow ∷ [])
    → replay_line s (rec_filter ch filter_type mask pattern flow) live
      ≡ replays s (app_start_msg_filter ch filter_type mask pattern flow) live
unfolding rec_filter replay_line replay_tokens replay_verb replay_filter
replay_line-rec_filter s ch filter_type live mask pattern flow (c, (t, _)) a =
    let ms = mask ∷ pattern ∷ flow ∷ [] in
    ap (λ ts. replay_tokens s ts live)
      (tokens_head b'f' (b'i' ∷ b'l' ∷ b't' ∷ b'e' ∷ b'r' ∷ []) (ch ∷ filter_type ∷ [])
          (rec_each ms) (refl, (refl, (refl, (refl, (refl, (refl, tt))))))
          (rec_each-StartsSeparator ms)
        ∙ ap (λ ts. codes "filter" ∷ decimal ch ∷ decimal filter_type ∷ ts) (tokens-rec_each ms))
    ∙ rw
        (
          strtoul-decimal ch c,
          strtoul-decimal filter_type t,
          parse_msgs-all_words 3 ms s.slots (omega arith) a,
        )
        refl

replay_line-rec_ioctl :
    (s : ReplayState) (ch ioctl live : ℕ) (input : Option (List (ℕ × ℕ)))
    → AreUlongs (ch ∷ ioctl ∷ [])
    → InputIsRecorded input
    → replay_line s (rec_ioctl ch ioctl input) live ≡ replays s (app_ioctl ch ioctl input) live
unfolding rec_ioctl replay_line replay_tokens replay_verb replay_plain
replay_line-rec_ioctl s ch ioctl live input (c, (i, _)) a =
    let cfg = recorded_pairs ioctl input in
    ap (λ ts. replay_tokens s ts live)
      (tokens_head b'i' (b'o' ∷ b'c' ∷ b't' ∷ b'l' ∷ []) (ch ∷ ioctl ∷ []) (rec_pairs cfg)
          (refl, (refl, (refl, (refl, (refl, tt))))) (rec_pairs-StartsSeparator cfg)
        ∙ ap (λ ts. codes "ioctl" ∷ decimal ch ∷ decimal ioctl ∷ ts) (tokens-rec_pairs cfg))
    ∙ rw
        (
          strtoul-decimal ch c,
          strtoul-decimal ioctl i,
          config_pairs-pair_words 32 cfg (length-recorded_pairs ioctl input)
              (recorded_pairs-ArePairs ioctl input a),
        )
        refl

pub replay_line-recorded :
    (s : ReplayState) (call : Call) (live : ℕ)
    → IsCall call
    → replay_line s (recorded call) live ≡ replays s call live
unfolding recorded replay_line replay_tokens replay_verb replay_plain
replay_line-recorded s app_open live u =
    ap (λ ts. replay_tokens s ts live)
      (tokens-rec_line b'o' (b'p' ∷ b'e' ∷ b'n' ∷ []) [] (refl, (refl, (refl, (refl, tt)))))
replay_line-recorded s app_get_last_error live u =
    ap (λ ts. replay_tokens s ts live)
      (tokens-rec_line b'l' (b'a' ∷ b's' ∷ b't' ∷ b'e' ∷ b'r' ∷ b'r' ∷ []) []
        (refl, (refl, (refl, (refl, (refl, (refl, (refl, tt))))))))
replay_line-recorded s (app_close dev) live (h0, _) =
    ap (λ ts. replay_tokens s ts live)
      (tokens-rec_line b'c' (b'l' ∷ b'o' ∷ b's' ∷ b'e' ∷ []) (dev ∷ [])
        (refl, (refl, (refl, (refl, (refl, tt))))))
    ∙ rw (strtoul-decimal dev h0) refl
replay_line-recorded s (app_connect dev protocol flags baud) live (h0, (h1, (h2, (h3, _)))) =
    ap (λ ts. replay_tokens s ts live)
      (tokens-rec_line b'c' (b'o' ∷ b'n' ∷ b'n' ∷ b'e' ∷ b'c' ∷ b't' ∷ [])
        (dev ∷ protocol ∷ flags ∷ baud ∷ [])
        (refl, (refl, (refl, (refl, (refl, (refl, (refl, tt))))))))
    ∙ rw
        (
          strtoul-decimal dev h0,
          strtoul-decimal protocol h1,
          strtoul-decimal flags h2,
          strtoul-decimal baud h3,
        )
        refl
replay_line-recorded s (app_disconnect ch) live (h0, _) =
    ap (λ ts. replay_tokens s ts live)
      (tokens-rec_line b'd' (b'i' ∷ b's' ∷ b'c' ∷ b'o' ∷ b'n' ∷ b'n' ∷ b'e' ∷ b'c' ∷ b't' ∷ [])
        (ch ∷ [])
        (refl, (refl, (refl, (refl, (refl, (refl, (refl, (refl, (refl, (refl, tt)))))))))))
    ∙ rw (strtoul-decimal ch h0) refl
replay_line-recorded s (app_read_msgs ch num timeout) live (h0, (h1, (h2, _))) =
    ap (λ ts. replay_tokens s ts live)
      (tokens-rec_line b'r' (b'e' ∷ b'a' ∷ b'd' ∷ []) (ch ∷ or_zero num ∷ timeout ∷ [])
        (refl, (refl, (refl, (refl, tt)))))
    ∙ rw (strtoul-decimal ch h0, strtoul-decimal (or_zero num) h1, strtoul-decimal timeout h2) refl
replay_line-recorded s (app_stop_periodic_msg ch id) live (h0, (h1, _)) =
    ap (λ ts. replay_tokens s ts live)
      (tokens-rec_line b's' (b't' ∷ b'o' ∷ b'p' ∷ b'p' ∷ []) (ch ∷ id ∷ [])
        (refl, (refl, (refl, (refl, (refl, tt))))))
    ∙ rw (strtoul-decimal ch h0, strtoul-decimal id h1) refl
replay_line-recorded s (app_stop_msg_filter ch id) live (h0, (h1, _)) =
    ap (λ ts. replay_tokens s ts live)
      (tokens-rec_line b's' (b't' ∷ b'o' ∷ b'p' ∷ b'f' ∷ []) (ch ∷ id ∷ [])
        (refl, (refl, (refl, (refl, (refl, tt))))))
    ∙ rw (strtoul-decimal ch h0, strtoul-decimal id h1) refl
replay_line-recorded s (app_set_programming_voltage dev pin_number voltage) live
      (h0, (h1, (h2, _))) =
    ap (λ ts. replay_tokens s ts live)
      (tokens-rec_line b'p' (b'r' ∷ b'o' ∷ b'g' ∷ b'v' ∷ []) (dev ∷ pin_number ∷ voltage ∷ [])
        (refl, (refl, (refl, (refl, (refl, tt))))))
    ∙ rw (strtoul-decimal dev h0, strtoul-decimal pin_number h1, strtoul-decimal voltage h2) refl
replay_line-recorded s (app_read_version dev) live (h0, _) =
    ap (λ ts. replay_tokens s ts live)
      (tokens-rec_line b'v' (b'e' ∷ b'r' ∷ b's' ∷ b'i' ∷ b'o' ∷ b'n' ∷ []) (dev ∷ [])
        (refl, (refl, (refl, (refl, (refl, (refl, (refl, tt))))))))
    ∙ rw (strtoul-decimal dev h0) refl
replay_line-recorded s (app_write_msgs ch ms num timeout) live (u, a) =
    replay_line-rec_write s ch num timeout live ms u a
replay_line-recorded s (app_start_periodic_msg ch m interval) live (u, a) =
    replay_line-rec_startp s ch interval live m u a
replay_line-recorded s (app_start_msg_filter ch filter_type mask pattern flow) live (u, a) =
    replay_line-rec_filter s ch filter_type live mask pattern flow u a
replay_line-recorded s (app_ioctl ch ioctl input) live (u, a) =
    replay_line-rec_ioctl s ch ioctl live input u a
