-- ===== src/Proto/Command/Arguments.antt =====
-- The length and the fields of the lines that the encoders of src/op_proto.c write.
use openport_j.Base.{
  ℕ, ◌≤◌, ◌<◌, ◌≡◌, refl, List, [], ◌∷◌, ◌++◌, Bytes, arith, length, length-append, take, drop, ltb,
  ◌==◌, ◌||◌, false,
}
use openport_j.Base.All.{All}
use openport_j.Proto.Number.{u32_max, parse_tail}
use openport_j.Proto.Decode.{cmd_max, msg_max}
use openport_j.Proto.Print.{decimal, spaced, crlf, emit}
use openport_j.Proto.Print.Fields.{parse_tail-decimal, length-decimal, length-spaced_le, crlf-Stops}
use openport_j.Proto.Command.{channel_line, cmd_transmit, cmd_periodic_start}

abbrev pub AreU32 : List ℕ → Type 0
AreU32 = All (λ n. n ≤ u32_max)

-- A line of less than 64 bytes that begins "at<verb>" and whose fields are `args`.
pub record Carries (line : Bytes) (verb : ℕ) (args : List ℕ) : Type 0 where
  pub fits : length line < cmd_max
  pub begins : take 3 line ≡ b'a' ∷ b't' ∷ verb ∷ []
  pub fields : parse_tail (drop 3 line) ≡ args

emit_short : (line : Bytes) → length line < cmd_max → emit cmd_max line ≡ line
unfolding emit
emit_short line h = ground arith

channel_line-Carries :
    (verb ch : ℕ) (args : List ℕ)
    → AreU32 (ch ∷ args)
    → length args ≤ 4
    → Carries (channel_line verb ch args) verb (ch ∷ args)
channel_line-Carries verb ch args (a, as') l = record {
  fits = omega (
    arith,
    length-append (decimal ch) (spaced args ++ crlf),
    length-append (spaced args) crlf,
    length-decimal ch a,
    length-spaced_le args as',
  );
  begins = refl;
  fields = parse_tail-decimal ch args crlf (a, as') (omega arith) (crlf-Stops _);
}

pub emit-Carries :
    (verb ch : ℕ) (args : List ℕ)
    → AreU32 (ch ∷ args)
    → length args ≤ 4
    → Carries (emit cmd_max (channel_line verb ch args)) verb (ch ∷ args)
emit-Carries verb ch args a l =
    let c = channel_line-Carries verb ch args a l in
    rw (emit_short (channel_line verb ch args) c.fits) c

in_range : (n hi : ℕ) → 1 ≤ n → n ≤ hi → (n == 0 || ltb hi n) ≡ false
in_range n hi lo h = ground arith

-- The two encoders that announce a message refuse an empty one and one above 4128 bytes, and
-- write a whole line for any other.
pub message_encoders-Carries :
    (ch n txflags t : ℕ)
    → AreU32 (ch ∷ txflags ∷ t ∷ [])
    → 1 ≤ n
    → n ≤ msg_max
    → Carries (cmd_transmit cmd_max ch n txflags t) b't' (ch ∷ n ∷ txflags ∷ t ∷ [])
      × Carries (cmd_periodic_start cmd_max ch t txflags n) b'm' (ch ∷ t ∷ 0 ∷ txflags ∷ n ∷ [])
unfolding cmd_transmit cmd_periodic_start
message_encoders-Carries ch n txflags t a lo hi = (
  rw (in_range n msg_max lo hi, cmd_transmit)
      (emit-Carries b't' ch (n ∷ txflags ∷ t ∷ []) (omega arith) (omega arith)),
  rw (in_range n msg_max lo hi, cmd_periodic_start)
      (emit-Carries b'm' ch (t ∷ 0 ∷ txflags ∷ n ∷ []) (omega arith) (omega arith)),
)
